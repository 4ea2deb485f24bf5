-- ===== src/Reader/Environment.antt =====
-- What a read works with: packages/read, packages/query, packages/read-handler-resolver, the Reader's
-- observations (packages/observability) and dependencies, and the log of the calls that it makes.
use event_driven_platform.Prelude.{ℕ, Text, List, Option, Bool}
use event_driven_platform.Effects.{Result, Exec, ◌>>=◌}
use event_driven_platform.Effects.Traced.{Traced, answered, sensed}
use event_driven_platform.Domain.{Reference, Actor}
use event_driven_platform.Execution.{Timestamp, duration}
use event_driven_platform.Command.{RetryOptions}
use event_driven_platform.Coordinator.{
  ClaimReadExecutionRequest, ClaimReadExecutionResult, WaitForReadExecutionRequest,
  WaitForReadExecutionResult, RenewReadExecutionRequest, RenewReadExecutionResult,
  ReleaseReadExecutionRequest, ReleaseReadExecutionResult,
}
use event_driven_platform.Observability.{Observer, safe_observe}
use event_driven_platform.ReadCacheInMemory.{
  ReadCacheKey, TenantScopedReadCacheKey, CacheReadResult,
}
use event_driven_platform.Reader.Errors.{ReaderError}
use event_driven_platform.Retry.{Numbers}

pub record Read : Type 0 where
  pub name : Text
  pub actor : Actor
  pub tenant : Reference
  pub parameters : Text

-- a method of the environment, on the world
abbrev pub ReaderMethod : Type 0 → Type 0 → Type 0
ReaderMethod W A = Exec W ReaderError A

pub data CacheScope : Type 0 where
  local shared : CacheScope

pub record QueryCacheLevel (W A : Type 0) : Type 0 where
  pub scope : CacheScope
  pub reader : TenantScopedReadCacheKey → ReaderMethod W (CacheReadResult A)
  pub writer : Option (TenantScopedReadCacheKey → A → ReaderMethod W (Unit {0}))

-- `coordination` is its lease duration
pub record QueryCachePlan (W A Number : Type 0) : Type 0 where
  pub key : ReadCacheKey
  pub levels : List (QueryCacheLevel W A)
  pub coordination : Option Number

-- `signal` tells whether a signal was passed; what it does is part of the world
pub record QueryOptions (W A Number : Type 0) : Type 0 where
  pub timeout_ms : Option ℕ
  pub signal : Bool
  pub cache : Option (QueryCachePlan W A Number)
  pub retry : Option (RetryOptions Number)

pub record Query (W A Number : Type 0) : Type 0 where
  pub read : Read
  pub correlation_id : Text
  pub options : Option (QueryOptions W A Number)

-- the handlers of a resolution are a list that is not empty
pub data ReadHandlerResolution (W A : Type 0) : Type 0 where
  resolved :
      (first : Read → ReaderMethod W A) (rest : List (Read → ReaderMethod W A))
      → ReadHandlerResolution W A
  not_found : ReadHandlerResolution W A
  ambiguous : (reason : Text) → ReadHandlerResolution W A

pub record ReaderObservationContext : Type 0 where
  pub read : Text
  pub tenant : Reference
  pub correlation_id : Text

pub data ReaderOutcome : Type 0 where
  success error timed_out cancelled : ReaderOutcome

pub data LookupOutcome : Type 0 where
  hit miss error : LookupOutcome

pub data CoordinationOutcome : Type 0 where
  owner waiter unavailable ownership_lost : CoordinationOutcome

pub data ReaderObservation (Number : Type 0) : Type 0 where
  read_requested read_started : ReaderObservationContext → ReaderObservation Number
  read_completed :
      ReaderObservationContext → ReaderOutcome → (duration_ms : ℕ) → ReaderObservation Number
  cache_lookup_completed :
      ReaderObservationContext
      → CacheScope
      → (level : ℕ) → LookupOutcome
      → (duration_ms : ℕ) → ReaderObservation Number
  cache_population_completed :
      ReaderObservationContext
      → CacheScope
      → (level : ℕ) (success : Bool) (duration_ms : ℕ) → ReaderObservation Number
  source_completed :
      ReaderObservationContext → (success : Bool) (duration_ms : ℕ) → ReaderObservation Number
  local_inflight_joined : ReaderObservationContext → ReaderObservation Number
  distributed_coordination_completed :
      ReaderObservationContext → CoordinationOutcome → (duration_ms : ℕ) → ReaderObservation Number
  read_attempt_started : ReaderObservationContext → (attempt : ℕ) → ReaderObservation Number
  read_attempt_completed :
      ReaderObservationContext
      → (attempt : ℕ) (success retryable : Bool) (duration_ms : ℕ) → ReaderObservation Number
  read_retry_scheduled :
      ReaderObservationContext → (attempt : ℕ) (delay_ms : Number) → ReaderObservation Number

-- ReadExecutionCoordinator; `renew` and `release` answer by a status, as the contract says
pub record ReadExecutionCoordinator (W Number : Type 0) : Type 0 where
  pub claim : ClaimReadExecutionRequest Number → ReaderMethod W ClaimReadExecutionResult
  pub wait : WaitForReadExecutionRequest Number → ReaderMethod W WaitForReadExecutionResult
  pub renew : RenewReadExecutionRequest Number → W → RenewReadExecutionResult × W
  pub release : ReleaseReadExecutionRequest → ReaderMethod W ReleaseReadExecutionResult

-- what a read depends on; the clock and `Math.random` do not throw
pub record DefaultReaderDependencies (W A Number : Type 0) : Type 0 where
  pub numbers : Numbers Number
  pub random : W → Number × W
  pub now : W → Timestamp × W
  pub observer : Observer W ReaderError (ReaderObservation Number)
  pub resolve : Read → Result ReaderError (ReadHandlerResolution W A)
  pub retry_delay : Number → ReaderMethod W (Unit {0})
  pub coordinator : Option (ReadExecutionCoordinator W Number)
  pub create_owner_id : W → Text × W
  -- a flight of another caller for the key that is active in LocalReadInFlight, and what it comes to
  pub active_flight : TenantScopedReadCacheKey → W → Option (Result ReaderError A) × W
  -- how often the renewal timer fires while the owner of a flight waits for something: for the shared
  -- levels, for the source, or for the write of its result to one level
  pub timer_rounds : W → ℕ × W
  -- `signal.aborted`; whether the signal is aborted, or the timer fires, before the work has settled
  pub aborted : W → Bool × W
  pub aborted_first : W → Bool × W
  pub timer_first : ℕ → W → Bool × W

-- the calls that a read makes, with their answers
pub data ReaderCall (A Number : Type 0) : Type 0 where
  observed : ReaderObservation Number → ReaderCall A Number
  source_answered : Result ReaderError A → ReaderCall A Number
  retry_waited : Number → ReaderCall A Number
  cache_answered : (level : ℕ) → Result ReaderError (CacheReadResult A) → ReaderCall A Number
  cache_written : (level : ℕ) → (value : A) → Result ReaderError (Unit {0}) → ReaderCall A Number
  flight_joined : Result ReaderError A → ReaderCall A Number
  claim_answered : Result ReaderError ClaimReadExecutionResult → ReaderCall A Number
  wait_answered : Result ReaderError WaitForReadExecutionResult → ReaderCall A Number
  renew_answered : RenewReadExecutionRequest Number → RenewReadExecutionResult → ReaderCall A Number
  release_answered :
      ReleaseReadExecutionRequest
      → Result ReaderError ReleaseReadExecutionResult
      → ReaderCall A Number
  ran_out_of_fuel : ReaderCall A Number

abbrev pub ReaderRun : Type 0 → Type 0 → Type 0 → Type 0 → Type 0
ReaderRun W A Number B = Exec (Traced W (ReaderCall A Number)) ReaderError B

module _ {W A Number : Type 0} (d : DefaultReaderDependencies W A Number) where
  unfoldable pub reader_now : ReaderRun W A Number Timestamp
  unfolding sensed
  reader_now = sensed d.now

  unfoldable pub reader_observe : ReaderObservation Number → ReaderRun W A Number (Unit {0})
  unfolding answered safe_observe
  reader_observe o = answered (λ w. (tt, safe_observe d.observer o w)) (λ _. observed o)

  -- an observation with the time since `started_at`
  unfoldable pub observe_since :
      (ℕ → ReaderObservation Number) → Timestamp → ReaderRun W A Number (Unit {0})
  unfolding reader_now reader_observe
  observe_since observation started_at = do
    finished_at ← reader_now
    reader_observe (observation (duration started_at finished_at))
