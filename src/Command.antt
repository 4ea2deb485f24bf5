-- ===== src/Command.antt =====
-- packages/command, guard, rate-limit and retry: an operation with its execution policy.
-- `Number` is the type of JavaScript numbers, which only delays use; counts and durations that the
-- code does not compute with are natural numbers.
use event_driven_platform.Prelude.{ℕ, Text, List, Option, Bool}
use event_driven_platform.Domain.{Operation}

pub record GuardRejection : Type 0 where
  pub reason : Text
  pub code : Option Text

-- `params`, which only a guard's implementation reads, is a text
pub record GuardOptions : Type 0 where
  pub name : Text
  pub params : Option Text
  pub reject_with : Option GuardRejection

pub data RateLimitScope : Type 0 where
  actor tenant subject operation global : RateLimitScope

pub record RateLimitOptions : Type 0 where
  pub key : Text
  pub scope : RateLimitScope
  pub limit : ℕ
  pub window_ms : ℕ
  pub cost : Option ℕ
  -- `rejectWith?.reason`
  pub reject_with : Option Text

pub data RetryStrategy (Number : Type 0) : Type 0 where
  fixed : (delay_ms : Number) (jitter : Option Bool) → RetryStrategy Number
  exponential :
      (initial_delay_ms multiplier : Number) (max_delay_ms : Option Number) (jitter : Option Bool)
      → RetryStrategy Number

pub record RetryOptions (Number : Type 0) : Type 0 where
  pub max_attempts : ℕ
  pub strategy : Option (RetryStrategy Number)

pub record CommandOptions (Number : Type 0) : Type 0 where
  pub timeout_ms : Option ℕ
  pub retry : Option (RetryOptions Number)
  pub rate_limit : Option RateLimitOptions
  pub guards : Option (List GuardOptions)

pub record Command (Number : Type 0) : Type 0 where
  pub operation : Operation
  pub correlation_id : Text
  pub options : Option (CommandOptions Number)
