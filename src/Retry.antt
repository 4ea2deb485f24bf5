-- ===== src/Retry.antt =====
-- packages/runner/src/lib/retry/calculate-retry-delay.ts and its copy in packages/reader, and the
-- strategy factories of packages/retry. The arithmetic of JavaScript numbers is a parameter.
pub mod Bounds
mod Examples
use event_driven_platform.Prelude.{
  ℕ, ◌-◌, Bool, true, false, not, ◌||◌, Option, none, some, or_else, if◌then◌else◌,
}
use event_driven_platform.Command.{RetryStrategy, fixed, exponential}

-- the number operations that the delay uses; exponents are attempt numbers
pub record Numbers (Number : Type 0) : Type 0 where
  pub zero : Number
  pub two : Number
  pub is_nan : Number → Bool
  pub is_finite : Number → Bool
  pub is_positive : Number → Bool
  pub maximum : Number → Number → Number
  pub minimum : Number → Number → Number
  pub times : Number → Number → Number
  pub power : Number → ℕ → Number

module _ {Number : Type 0} (n : Numbers Number) where
  unfoldable pub compute_delay : RetryStrategy Number → ℕ → Number
  compute_delay (fixed delay_ms jitter) retry_number = delay_ms
  compute_delay (exponential initial multiplier none jitter) retry_number =
      n.times initial (n.power multiplier (retry_number - 1))
  compute_delay (exponential initial multiplier (some most) jitter) retry_number =
      n.minimum (n.times initial (n.power multiplier (retry_number - 1))) most

  unfoldable pub clamp_delay : Number → Number
  clamp_delay delay = if n.is_nan delay then n.zero else n.maximum n.zero delay

  -- `strategy.jitter === true`
  unfoldable pub has_jitter : RetryStrategy Number → Bool
  has_jitter (fixed delay_ms jitter) = or_else jitter false
  has_jitter (exponential initial multiplier most jitter) = or_else jitter false

  -- the delay, and the world after `Math.random` has been read, if it has
  unfoldable pub calculate_retry_delay :
      {W : Type 0} → (W → Number × W) → Option (RetryStrategy Number) → ℕ → W → Number × W
  unfolding compute_delay clamp_delay has_jitter
  calculate_retry_delay random none retry_number w = (n.zero, w)
  calculate_retry_delay random (some strategy) retry_number w =
      let delay = compute_delay strategy retry_number in
      let (fraction, w') = random w in
      if not (has_jitter strategy) || not (n.is_finite delay)
      then (clamp_delay delay, w)
      else (n.times fraction (clamp_delay delay), w')

  unfoldable pub create_fixed_strategy : Number → Option Bool → RetryStrategy Number
  create_fixed_strategy delay_ms jitter = fixed delay_ms jitter

  unfoldable pub create_exponential_strategy :
      Number → Option Number → Option Number → Option Bool → RetryStrategy Number
  create_exponential_strategy initial multiplier most jitter =
      exponential initial (or_else multiplier n.two) most jitter
