-- ===== src/UseCaseExecutor.antt =====
-- packages/use-case, packages/use-case-execution-store and the types of packages/use-case-executor.
use event_driven_platform.Prelude.{ℕ, Text, text, concat, List, [], ◌∷◌, ◌++◌, Option, true, false}
use event_driven_platform.Domain.{Intent}
use event_driven_platform.Execution.{
  Timestamp, ExecutionLease, ExecutionLeaseReference, ExecutionFailure, Thrown, execution_failure,
}
pub mod Executor
pub mod Script
mod Examples

pub record UseCaseContext : Type 0 where
  pub intent : Intent
  pub correlation_id : Text

pub record ClaimUseCaseExecutionRequest : Type 0 where
  pub execution_id : Text
  pub intent : Intent
  pub correlation_id : Text
  pub lease_owner_id : Text
  pub lease_duration_ms : ℕ
  pub requested_at : Timestamp

pub data ClaimUseCaseExecutionResult (A : Type 0) : Type 0 where
  claimed : (lease : ExecutionLease) → ClaimUseCaseExecutionResult A
  completed : (result : A) → (completed_at : Timestamp) → ClaimUseCaseExecutionResult A
  already_in_progress : (lease : ExecutionLease) → ClaimUseCaseExecutionResult A
  intent_conflict : (existing_intent_id : Text) → ClaimUseCaseExecutionResult A

pub data UseCaseExecutionTransitionRejected : Type 0 where
  not_found not_in_progress lease_conflict : UseCaseExecutionTransitionRejected

pub record CompleteUseCaseExecutionRequest (A : Type 0) : Type 0 where
  pub execution_id : Text
  pub lease : ExecutionLeaseReference
  pub result : A
  pub completed_at : Timestamp

pub data CompleteUseCaseExecutionResult : Type 0 where
  completed : (completed_at : Timestamp) → CompleteUseCaseExecutionResult
  rejected : UseCaseExecutionTransitionRejected → CompleteUseCaseExecutionResult

pub record ReleaseUseCaseExecutionRequest : Type 0 where
  pub execution_id : Text
  pub lease : ExecutionLeaseReference
  pub released_at : Timestamp

pub data ReleaseUseCaseExecutionResult : Type 0 where
  released : (released_at : Timestamp) → ReleaseUseCaseExecutionResult
  rejected : UseCaseExecutionTransitionRejected → ReleaseUseCaseExecutionResult

-- what `execute` may throw: its own two errors, and what its dependencies and the use case throw
pub data UseCaseExecutorError : Type 0 where
  claim_in_progress : (execution_id : Text) → UseCaseExecutorError
  claim_conflict : (execution_id existing_intent_id : Text) → UseCaseExecutorError
  transition_rejected :
      (execution_id : Text) → UseCaseExecutionTransitionRejected → UseCaseExecutorError
  foreign : Thrown → UseCaseExecutorError

unfoldable pub rejection_type : UseCaseExecutionTransitionRejected → Text
rejection_type not_found = text "not-found"
rejection_type not_in_progress = text "not-in-progress"
rejection_type lease_conflict = text "lease-conflict"

-- UseCaseClaimRejectedError
unfoldable pub claim_in_progress_failure : Text → ExecutionFailure
claim_in_progress_failure execution_id = record {
  code = text "already-in-progress";
  message =
      concat (text "UseCase execution " ∷ execution_id ∷ text " is already in progress." ∷ []);
  retryable = true;
}

unfoldable pub claim_conflict_failure : Text → ExecutionFailure
claim_conflict_failure execution_id = record {
  code = text "intent-conflict";
  message =
      concat (
        text "UseCase execution " ∷ execution_id ∷ text " is associated with another Intent." ∷ []);
  retryable = false;
}

-- UseCaseExecutionTransitionError
unfoldable pub use_case_transition_failure :
    Text → UseCaseExecutionTransitionRejected → ExecutionFailure
unfolding rejection_type
use_case_transition_failure execution_id rejection = record {
  code = text "use-case-execution-" ++ rejection_type rejection;
  message = concat (
      text "UseCase execution "
      ∷ execution_id
      ∷ text " complete transition was rejected: "
      ∷ rejection_type rejection
      ∷ text "."
      ∷ []);
  retryable = false;
}

-- the ExecutionFailureError that each class of error is
unfoldable pub use_case_thrown : UseCaseExecutorError → Thrown
unfolding claim_in_progress_failure claim_conflict_failure use_case_transition_failure
use_case_thrown (claim_in_progress id) = execution_failure (claim_in_progress_failure id)
use_case_thrown (claim_conflict id other) = execution_failure (claim_conflict_failure id)
use_case_thrown (transition_rejected id r) = execution_failure (use_case_transition_failure id r)
use_case_thrown (foreign t) = t
