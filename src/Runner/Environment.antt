-- ===== src/Runner/Environment.antt =====
-- What the Runner depends on, and the state that a run threads: the world of the dependencies, the
-- transaction slot, and the calls made so far, the newest first.
use event_driven_platform.Prelude.{ℕ, Text, text, List, ◌∷◌, Option, Bool}
use event_driven_platform.Effects.{Result, ok, Exec}
use event_driven_platform.Domain.{Reference, Event, Operation, OperationResult}
use event_driven_platform.Execution.{Timestamp, plain_error}
use event_driven_platform.ExecutionLog.{
  ClaimExecutionRequest, ClaimExecutionResult, CompleteExecutionRequest, CompleteExecutionResult,
  FailExecutionRequest, FailExecutionResult,
}
use event_driven_platform.Command.{GuardOptions}
use event_driven_platform.Observability.{Observer, safe_observe}
use event_driven_platform.Outbox.{EventEnvelope, OutboxRecord}
use event_driven_platform.Retry.{Numbers}
use event_driven_platform.Transaction.{Adapter}
use event_driven_platform.Runner.Errors.{Error, foreign, ClaimRejectionReason}

pub record ObservationContext : Type 0 where
  pub operation : Text
  pub tenant : Reference
  pub intent_id : Text
  pub correlation_id : Text

pub data RunOutcome : Type 0 where
  success rejected error timed_out : RunOutcome

pub data Observation (Number : Type 0) : Type 0 where
  execution_requested execution_started idempotency_hit guard_rejected rate_limit_rejected :
      ObservationContext → Observation Number
  execution_completed : ObservationContext → RunOutcome → (duration_ms : ℕ) → Observation Number
  claim_rejected : ObservationContext → ClaimRejectionReason → Observation Number
  attempt_started : ObservationContext → (attempt : ℕ) → Observation Number
  attempt_completed :
      ObservationContext
      → (attempt : ℕ) → RunOutcome
      → (retryable : Bool) → (duration_ms : ℕ) → Observation Number
  retry_scheduled : ObservationContext → (attempt : ℕ) → (delay_ms : Number) → Observation Number

pub data TimeoutResult (A : Type 0) : Type 0 where
  completed : A → TimeoutResult A
  timed_out : TimeoutResult A

pub record RateLimitConsumeRequest : Type 0 where
  pub bucket_key : Text
  pub limit : ℕ
  pub window_ms : ℕ
  pub cost : ℕ

pub data RateLimitDecision : Type 0 where
  allowed rejected : RateLimitDecision

-- a method of a dependency
abbrev pub Method : Type 0 → Type 0 → Type 0
Method W A = W → Result Error A × W

abbrev pub Handler : Type 0 → Type 0
Handler W = Operation → Method W OperationResult

-- The fields of type `Method` may answer or throw anything. The clock, `Math.random`,
-- `encodeURIComponent` and the roll back of a transaction may answer anything, and do not throw.
pub record Dependencies (W Number : Type 0) : Type 0 where
  pub numbers : Numbers Number
  pub encode_uri_component : Text → Text
  pub random : W → Number × W
  pub now : W → Timestamp × W
  pub create_execution_id : Text → Result Error Text
  pub claim : ClaimExecutionRequest → Method W ClaimExecutionResult
  pub complete : CompleteExecutionRequest → Method W CompleteExecutionResult
  pub fail : FailExecutionRequest → Method W FailExecutionResult
  pub execution_timeout : Method W OperationResult → ℕ → Method W (TimeoutResult OperationResult)
  pub guard_evaluator : Option (GuardOptions → Operation → Method W Bool)
  pub observer : Observer W Error (Observation Number)
  pub rate_limiter : Option (RateLimitConsumeRequest → Method W RateLimitDecision)
  pub wait : Number → Method W (Unit {0})
  pub resolve : Operation → Result Error (Handler W)
  pub begin_transaction : Method W ℕ
  pub commit_transaction : ℕ → Method W (Unit {0})
  pub roll_back_transaction : ℕ → W → W
  pub create_envelopes : Operation → Text → List Event → Method W (List EventEnvelope)
  pub create_records : List EventEnvelope → Method W (List OutboxRecord)
  pub append : List OutboxRecord → Method W (Unit {0})

-- a call that left the Runner, with its answer where that matters
pub data Call (Number : Type 0) : Type 0 where
  observed : Observation Number → Call Number
  claim_answered : ClaimExecutionRequest → Result Error ClaimExecutionResult → Call Number
  guard_evaluated : GuardOptions → Call Number
  rate_limit_consumed : RateLimitConsumeRequest → Call Number
  -- a call of the handler, or of the execution timeout with it; how often a timeout runs the work it is
  -- given is not seen
  handler_invoked : Operation → Call Number
  complete_answered : CompleteExecutionRequest → Result Error CompleteExecutionResult → Call Number
  fail_answered : FailExecutionRequest → Result Error FailExecutionResult → Call Number
  append_answered : List OutboxRecord → Result Error (Unit {0}) → Call Number
  begin_answered : Result Error ℕ → Call Number
  commit_answered : Result Error (Unit {0}) → Call Number
  rolled_back : Call Number
  waited : Number → Call Number
  ran_out_of_fuel : Call Number

pub record State (W Number : Type 0) : Type 0 where
  pub world : W
  pub slot : Option ℕ
  pub trace : List (Call Number)

abbrev pub Run : Type 0 → Type 0 → Type 0 → Type 0
Run W Number A = Exec (State W Number) Error A

module _ {W Number : Type 0} where
  -- a call that is logged with its answer
  unfoldable pub logged :
      {A : Type 0} → Method W A → (Result Error A → Call Number) → Run W Number A
  logged method call s =
      let (r, w) = method s.world in (r, record s { world = w; trace = call r ∷ s.trace })

  -- a call that the protocol says nothing about
  unfoldable pub silent : {A : Type 0} → Method W A → Run W Number A
  silent method s = let (r, w) = method s.world in (r, record s { world = w })

module _ {W Number : Type 0} (d : Dependencies W Number) where
  unfoldable pub now : Run W Number Timestamp
  now s = let (t, w) = d.now s.world in (ok t, record s { world = w })

  unfoldable pub observe : Observation Number → Run W Number (Unit {0})
  unfolding safe_observe
  observe o s =
      (ok tt, record s { world = safe_observe d.observer o s.world; trace = observed o ∷ s.trace })

  unfoldable pub adapter : Adapter (State W Number) Error
  unfolding logged
  adapter = record {
    open_transaction = logged d.begin_transaction begin_answered;
    commit_transaction = λ t. logged (d.commit_transaction t) commit_answered;
    roll_back_transaction = λ t s. record s {
      world = d.roll_back_transaction t s.world;
      trace = rolled_back ∷ s.trace;
    };
    get_store = λ s. s.slot;
    set_store = λ o s. record s { slot = o };
    not_active =
        foreign
          (plain_error (text "No active transaction is available in the current execution scope."));
    already_active = foreign (
        plain_error (text "A transaction scope is already active in the current execution chain."));
  }
