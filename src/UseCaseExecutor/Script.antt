-- ===== src/UseCaseExecutor/Script.antt =====
-- The calls that a run of the use case executor makes, in the order in which it makes them, and how
-- the run ends.
use event_driven_platform.Prelude.{
  Bool, true, false, ℕ, Text, List, [], ◌∷◌, ◌≡◌, refl, ap, sym, ◌∙◌,
}
use event_driven_platform.Effects.{Result, ok, err, lift}
use event_driven_platform.Effects.Hoare.{
  Post, Triple, Triple-pure, Triple-throw, Triple-bind, Triple-attempt, weaken,
}
use event_driven_platform.Domain.{Intent}
use event_driven_platform.Execution.{Timestamp, duration, ExecutionLease}
use event_driven_platform.UseCaseExecutor.{
  ClaimUseCaseExecutionRequest, ClaimUseCaseExecutionResult, CompleteUseCaseExecutionResult,
  ReleaseUseCaseExecutionResult, ReleaseUseCaseExecutionRequest, CompleteUseCaseExecutionRequest,
  UseCaseExecutorError, claim_in_progress, claim_conflict, transition_rejected,
}
use event_driven_platform.UseCaseExecutor.Executor.{
  UseCaseCall, observed, claim_answered, use_case_answered, release_answered, complete_answered,
  UseCaseState, UseCaseRun, Answering, UseCaseExecutorDependencies, UseCaseExecutionRequest,
  UseCaseExecutorObservation, UseCaseExecutorObservationContext, execution_completed,
  execution_started, execution_requested, claim_completed, claim_outcome, release_completed,
  completion_completed, completion_succeeded, observation_context, use_case_release_request,
  use_case_complete_request, lease_reference, use_case_claim_request, called, read_clock, report,
  report_since, release_and_throw, accept_completion, complete_execution, run_claimed,
  execute_use_case,
}
pub mod Primitives
pub mod Conformance

-- the calls without the observations
abbrev pub effects : {A : Type 0} → List (UseCaseCall A) → List (UseCaseCall A)
effects [] = []
effects (observed o ∷ t) = effects t
effects (c ∷ t) = c ∷ effects t

-- how the answer of the store ends a run whose use case returned `a`
abbrev pub end_of :
    {A : Type 0}
    → Text
    → A
    → Result UseCaseExecutorError CompleteUseCaseExecutionResult
    → Result UseCaseExecutorError A
end_of execution_id a (ok (CompleteUseCaseExecutionResult.completed t)) = ok a
end_of execution_id a (ok (CompleteUseCaseExecutionResult.rejected r)) =
    err (transition_rejected execution_id r)
end_of execution_id a (err e) = err e

module _ (intent : Intent) (correlation_id execution_id owner_id : Text) where
  -- the claim at a time: a lease of 30 seconds is asked for
  abbrev claim_at : Timestamp → ClaimUseCaseExecutionRequest
  claim_at t = record {
    execution_id = execution_id;
    intent = intent;
    correlation_id = correlation_id;
    lease_owner_id = owner_id;
    lease_duration_ms = 30000;
    requested_at = t;
  }

  -- the release at a time, by the owner and the version of the granted lease
  abbrev release_at : ExecutionLease → Timestamp → ReleaseUseCaseExecutionRequest
  release_at l u = record {
    execution_id = execution_id;
    lease = record { owner_id = l.owner_id; version = l.version };
    released_at = u;
  }

  -- the completion with a result at a time, by the owner and the version of the granted lease
  abbrev complete_at :
      {A : Type 0} → ExecutionLease → A → Timestamp → CompleteUseCaseExecutionRequest A
  complete_at l a u = record {
    execution_id = execution_id;
    lease = record { owner_id = l.owner_id; version = l.version };
    result = a;
    completed_at = u;
  }

  -- the scripts of a run whose execution identifier could be made, with the end of each
  pub data Script {A : Type 0} : List (UseCaseCall A) → Result UseCaseExecutorError A → Type 0 where
    claim_threw :
        (t : Timestamp) (e : UseCaseExecutorError)
        → Script (claim_answered (claim_at t) (err e) ∷ []) (err e)
    replayed :
        (t u : Timestamp) (a : A)
        → Script
            (claim_answered (claim_at t) (ok (ClaimUseCaseExecutionResult.completed a u)) ∷ [])
            (ok a)
    busy :
        (t : Timestamp) (l : ExecutionLease)
        → Script
            (claim_answered (claim_at t) (ok (ClaimUseCaseExecutionResult.already_in_progress l))
              ∷ [])
            (err (claim_in_progress execution_id))
    conflict :
        (t : Timestamp) (other : Text)
        → Script
            (claim_answered (claim_at t) (ok (ClaimUseCaseExecutionResult.intent_conflict other))
              ∷ [])
            (err (claim_conflict execution_id other))
    released :
        (t u : Timestamp) (l : ExecutionLease) (e : UseCaseExecutorError)
        (r : Result UseCaseExecutorError ReleaseUseCaseExecutionResult)
        → Script
            (release_answered (release_at l u) r
              ∷ use_case_answered (err e)
              ∷ claim_answered (claim_at t) (ok (ClaimUseCaseExecutionResult.claimed l))
              ∷ [])
            (err e)
    finished :
        (t u : Timestamp) (l : ExecutionLease) (a : A)
        (r : Result UseCaseExecutorError CompleteUseCaseExecutionResult)
        → Script
            (complete_answered (complete_at l a u) r
              ∷ use_case_answered (ok a)
              ∷ claim_answered (claim_at t) (ok (ClaimUseCaseExecutionResult.claimed l))
              ∷ [])
            (end_of execution_id a r)
