-- ===== src/UseCaseExecutor/Executor.antt =====
-- packages/use-case-executor/src/lib/executor/default-use-case-executor.ts, with its observations in
-- packages/observability/src/lib/use-case-executor.
use event_driven_platform.Prelude.{ℕ, Text, List, ◌∷◌, Bool, true, false}
use event_driven_platform.Effects.{Result, ok, Exec, pure, throw, lift, ◌>>=◌, ◌>>◌, attempt}
use event_driven_platform.Execution.{Timestamp, duration, ExecutionLease, ExecutionLeaseReference}
use event_driven_platform.Observability.{Observer, safe_observe}
use event_driven_platform.UseCaseExecutor.{
  UseCaseContext, ClaimUseCaseExecutionRequest, ClaimUseCaseExecutionResult,
  CompleteUseCaseExecutionRequest, CompleteUseCaseExecutionResult, ReleaseUseCaseExecutionRequest,
  ReleaseUseCaseExecutionResult, UseCaseExecutorError, claim_in_progress, claim_conflict,
  transition_rejected,
}

pub record UseCaseExecutorObservationContext : Type 0 where
  pub use_case : Text
  pub intent_id : Text
  pub correlation_id : Text

pub data ClaimOutcome : Type 0 where
  claimed completed already_in_progress intent_conflict : ClaimOutcome

pub data UseCaseExecutorObservation : Type 0 where
  execution_requested : UseCaseExecutorObservationContext → UseCaseExecutorObservation
  claim_completed :
      UseCaseExecutorObservationContext
      → (outcome : ClaimOutcome) → (duration_ms : ℕ) → UseCaseExecutorObservation
  execution_started : UseCaseExecutorObservationContext → UseCaseExecutorObservation
  execution_completed :
      UseCaseExecutorObservationContext
      → (success : Bool) → (duration_ms : ℕ) → UseCaseExecutorObservation
  completion_completed :
      UseCaseExecutorObservationContext
      → (completed : Bool) → (duration_ms : ℕ) → UseCaseExecutorObservation
  release_completed :
      UseCaseExecutorObservationContext
      → (released : Bool) → (duration_ms : ℕ) → UseCaseExecutorObservation

-- a method of the environment, on the world
abbrev pub Answering : Type 0 → Type 0 → Type 0
Answering W A = Exec W UseCaseExecutorError A

-- the dependencies (clock, identifier factory, store, observer) and the runtime's lease owner; the clock
-- may give any times, and does not throw
pub record UseCaseExecutorDependencies (W A : Type 0) : Type 0 where
  pub now : W → Timestamp × W
  pub create_execution_id : Text → Result UseCaseExecutorError Text
  pub claim : ClaimUseCaseExecutionRequest → Answering W (ClaimUseCaseExecutionResult A)
  pub complete : CompleteUseCaseExecutionRequest A → Answering W CompleteUseCaseExecutionResult
  pub release : ReleaseUseCaseExecutionRequest → Answering W ReleaseUseCaseExecutionResult
  pub observer : Observer W UseCaseExecutorError UseCaseExecutorObservation
  pub lease_owner_id : Text

-- the use case, its input and its context
pub record UseCaseExecutionRequest (W Input A : Type 0) : Type 0 where
  pub name : Text
  pub use_case : Input → UseCaseContext → Answering W A
  pub input : Input
  pub context : UseCaseContext

-- the calls that a run makes, with their answers
pub data UseCaseCall (A : Type 0) : Type 0 where
  observed : UseCaseExecutorObservation → UseCaseCall A
  claim_answered :
      ClaimUseCaseExecutionRequest
      → Result UseCaseExecutorError (ClaimUseCaseExecutionResult A)
      → UseCaseCall A
  use_case_answered : Result UseCaseExecutorError A → UseCaseCall A
  release_answered :
      ReleaseUseCaseExecutionRequest
      → Result UseCaseExecutorError ReleaseUseCaseExecutionResult
      → UseCaseCall A
  complete_answered :
      CompleteUseCaseExecutionRequest A
      → Result UseCaseExecutorError CompleteUseCaseExecutionResult
      → UseCaseCall A

-- the world, and the calls made, newest first
pub record UseCaseState (W A : Type 0) : Type 0 where
  pub world : W
  pub calls : List (UseCaseCall A)

abbrev pub UseCaseRun : Type 0 → Type 0 → Type 0 → Type 0
UseCaseRun W A B = Exec (UseCaseState W A) UseCaseExecutorError B

-- the source's USE_CASE_EXECUTION_LEASE_DURATION_MS
abbrev pub use_case_execution_lease_duration_ms : ℕ
use_case_execution_lease_duration_ms = 30000

abbrev pub claim_outcome : {A : Type 0} → ClaimUseCaseExecutionResult A → ClaimOutcome
claim_outcome (ClaimUseCaseExecutionResult.claimed l) = ClaimOutcome.claimed
claim_outcome (ClaimUseCaseExecutionResult.completed a t) = ClaimOutcome.completed
claim_outcome (ClaimUseCaseExecutionResult.already_in_progress l) = ClaimOutcome.already_in_progress
claim_outcome (ClaimUseCaseExecutionResult.intent_conflict i) = ClaimOutcome.intent_conflict

abbrev pub completion_succeeded : CompleteUseCaseExecutionResult → Bool
completion_succeeded (CompleteUseCaseExecutionResult.completed t) = true
completion_succeeded (CompleteUseCaseExecutionResult.rejected r) = false

-- `lease: claim.lease` where a request wants a lease reference: of the lease, its owner and version
abbrev pub lease_reference : ExecutionLease → ExecutionLeaseReference
lease_reference l = record { owner_id = l.owner_id; version = l.version }

abbrev pub use_case_release_request :
    Text → ExecutionLease → Timestamp → ReleaseUseCaseExecutionRequest
use_case_release_request execution_id lease released_at = record {
  execution_id = execution_id;
  lease = lease_reference lease;
  released_at = released_at;
}

abbrev pub use_case_complete_request :
    {A : Type 0} → Text → ExecutionLease → A → Timestamp → CompleteUseCaseExecutionRequest A
use_case_complete_request execution_id lease result completed_at = record {
  execution_id = execution_id;
  lease = lease_reference lease;
  result = result;
  completed_at = completed_at;
}

module _ {W A : Type 0} where
  unfoldable pub called :
      {B : Type 0}
      → Answering W B
      → (Result UseCaseExecutorError B → UseCaseCall A)
      → UseCaseRun W A B
  called method call s =
      let (r, w) = method s.world in (r, record s { world = w; calls = call r ∷ s.calls })

module _ {W A : Type 0} (d : UseCaseExecutorDependencies W A) where
  unfoldable pub read_clock : UseCaseRun W A Timestamp
  read_clock s = let (t, w) = d.now s.world in (ok t, record s { world = w })

  unfoldable pub report : UseCaseExecutorObservation → UseCaseRun W A (Unit {0})
  unfolding safe_observe
  report o s =
      (ok tt, record s { world = safe_observe d.observer o s.world; calls = observed o ∷ s.calls })

  -- an observation with the time since `started_at`
  unfoldable pub report_since :
      (ℕ → UseCaseExecutorObservation) → Timestamp → UseCaseRun W A (Unit {0})
  unfolding read_clock report
  report_since observation started_at = do
    finished_at ← read_clock
    report (observation (duration started_at finished_at))

  -- the `catch` of the use case: the lease is released, whatever the store answers or throws, and
  -- the error is thrown again
  unfoldable pub release_and_throw :
      UseCaseExecutorObservationContext
      → Text
      → ExecutionLease
      → Timestamp
      → UseCaseExecutorError
      → UseCaseRun W A A
  unfolding report_since read_clock called
  release_and_throw context execution_id lease execution_started_at error = do
    report_since (execution_completed context false) execution_started_at
    release_started_at ← read_clock
    let request = use_case_release_request execution_id lease release_started_at
    attempt (called (d.release request) (release_answered request))
        (λ _. report_since (release_completed context true) release_started_at)
        (λ (_ : UseCaseExecutorError).
          report_since (release_completed context false) release_started_at)
    throw error

  unfoldable pub accept_completion : Text → A → CompleteUseCaseExecutionResult → UseCaseRun W A A
  accept_completion execution_id result (CompleteUseCaseExecutionResult.completed t) = pure result
  accept_completion execution_id result (CompleteUseCaseExecutionResult.rejected r) =
      throw (transition_rejected execution_id r)

  -- what follows the use case when it has returned
  unfoldable pub complete_execution :
      UseCaseExecutorObservationContext → Text → ExecutionLease → Timestamp → A → UseCaseRun W A A
  unfolding report_since read_clock called accept_completion
  complete_execution context execution_id lease execution_started_at result = do
    report_since (execution_completed context true) execution_started_at
    completion_started_at ← read_clock
    let request = use_case_complete_request execution_id lease result completion_started_at
    completion ← called (d.complete request) (complete_answered request)
    report_since (completion_completed context (completion_succeeded completion))
        completion_started_at
    accept_completion execution_id result completion

  -- the `switch` on the claim, and what follows a granted one
  unfoldable pub run_claimed :
      {Input : Type 0}
      → UseCaseExecutionRequest W Input A
      → UseCaseExecutorObservationContext
      → Text
      → ClaimUseCaseExecutionResult A
      → UseCaseRun W A A
  unfolding read_clock report called release_and_throw complete_execution
  run_claimed request context execution_id (ClaimUseCaseExecutionResult.completed result t) =
      pure result
  run_claimed request context execution_id (ClaimUseCaseExecutionResult.already_in_progress l) =
      throw (claim_in_progress execution_id)
  run_claimed request context execution_id (ClaimUseCaseExecutionResult.intent_conflict existing) =
      throw (claim_conflict execution_id existing)
  run_claimed request context execution_id (ClaimUseCaseExecutionResult.claimed lease) = do
    execution_started_at ← read_clock
    report (execution_started context)
    attempt (called (request.use_case request.input request.context) use_case_answered)
        (complete_execution context execution_id lease execution_started_at)
        (release_and_throw context execution_id lease execution_started_at)

  abbrev pub observation_context :
      {Input : Type 0} → UseCaseExecutionRequest W Input A → UseCaseExecutorObservationContext
  observation_context request = record {
    use_case = request.name;
    intent_id = request.context.intent.id;
    correlation_id = request.context.correlation_id;
  }

  abbrev pub use_case_claim_request :
      {Input : Type 0}
      → UseCaseExecutionRequest W Input A
      → Text
      → Timestamp
      → ClaimUseCaseExecutionRequest
  use_case_claim_request request execution_id claim_started_at = record {
    execution_id = execution_id;
    intent = request.context.intent;
    correlation_id = request.context.correlation_id;
    lease_owner_id = d.lease_owner_id;
    lease_duration_ms = use_case_execution_lease_duration_ms;
    requested_at = claim_started_at;
  }

  -- DefaultUseCaseExecutor.execute
  unfoldable pub execute_use_case :
      {Input : Type 0} → UseCaseExecutionRequest W Input A → UseCaseRun W A A
  unfolding report read_clock called report_since run_claimed
  execute_use_case request = do
    execution_id ← lift (d.create_execution_id request.context.intent.id)
    report (execution_requested (observation_context request))
    claim_started_at ← read_clock
    let claim_request = use_case_claim_request request execution_id claim_started_at
    claim ← called (d.claim claim_request) (claim_answered claim_request)
    report_since (claim_completed (observation_context request) (claim_outcome claim))
        claim_started_at
    run_claimed request (observation_context request) execution_id claim
