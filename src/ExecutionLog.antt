-- ===== src/ExecutionLog.antt =====
-- packages/execution-log and packages/execution-log-store: attempts, entries, and the requests and
-- results of the store's transitions. The status of an attempt is its constructor.
use event_driven_platform.Prelude.{ℕ, Text, Bool, true, false}
use event_driven_platform.Domain.{Operation, OperationResult}
use event_driven_platform.Execution.{
  Timestamp, ExecutionLease, ExecutionLeaseReference, ExecutionFailure,
}

pub record AttemptBase : Type 0 where
  pub attempt_id : Text
  pub execution_id : Text
  pub attempt_number : ℕ
  pub correlation_id : Text
  pub runner_id : Text
  pub lease_version : ℕ
  pub started_at : Timestamp

pub data ExecutionAttempt : Type 0 where
  in_progress : AttemptBase → ExecutionAttempt
  completed : AttemptBase → (finished_at : Timestamp) → ExecutionAttempt
  failed : AttemptBase → ExecutionFailure → (finished_at : Timestamp) → ExecutionAttempt
  timed_out : AttemptBase → ExecutionFailure → (finished_at : Timestamp) → ExecutionAttempt

unfoldable pub is_in_progress_execution_attempt : ExecutionAttempt → Bool
is_in_progress_execution_attempt (in_progress b) = true
is_in_progress_execution_attempt _ = false

unfoldable pub is_completed_execution_attempt : ExecutionAttempt → Bool
is_completed_execution_attempt (completed b t) = true
is_completed_execution_attempt _ = false

unfoldable pub is_failed_execution_attempt : ExecutionAttempt → Bool
is_failed_execution_attempt (failed b f t) = true
is_failed_execution_attempt _ = false

unfoldable pub is_timed_out_execution_attempt : ExecutionAttempt → Bool
is_timed_out_execution_attempt (timed_out b f t) = true
is_timed_out_execution_attempt _ = false

pub record EntryBase : Type 0 where
  pub execution_id : Text
  pub intent_id : Text
  pub operation : Operation
  pub attempt_count : ℕ
  pub created_at : Timestamp

pub record InProgressExecutionLogEntry : Type 0 where
  pub base : EntryBase
  pub latest_attempt : AttemptBase
  pub lease : ExecutionLease

pub record CompletedExecutionLogEntry : Type 0 where
  pub base : EntryBase
  pub latest_attempt : AttemptBase
  pub attempt_finished_at : Timestamp
  pub result : OperationResult
  pub finished_at : Timestamp

pub data FailedAttemptStatus : Type 0 where
  failed timed_out : FailedAttemptStatus

pub record FailedExecutionLogEntry : Type 0 where
  pub base : EntryBase
  pub latest_attempt : AttemptBase
  pub status : FailedAttemptStatus
  pub failure : ExecutionFailure
  pub attempt_finished_at : Timestamp
  pub finished_at : Timestamp

pub data ExecutionLogEntry : Type 0 where
  in_progress : InProgressExecutionLogEntry → ExecutionLogEntry
  completed : CompletedExecutionLogEntry → ExecutionLogEntry
  failed : FailedExecutionLogEntry → ExecutionLogEntry

-- `entry.latestAttempt`
unfoldable pub latest_attempt : ExecutionLogEntry → ExecutionAttempt
latest_attempt (in_progress e) = in_progress e.latest_attempt
latest_attempt (completed e) = completed e.latest_attempt e.attempt_finished_at
latest_attempt (failed e) = elim e.status [
  | failed ↦ failed e.latest_attempt e.failure e.attempt_finished_at
  | timed_out ↦ timed_out e.latest_attempt e.failure e.attempt_finished_at
]

unfoldable pub is_in_progress_execution_log_entry : ExecutionLogEntry → Bool
unfolding latest_attempt is_in_progress_execution_attempt
is_in_progress_execution_log_entry e = is_in_progress_execution_attempt (latest_attempt e)

unfoldable pub is_completed_execution_log_entry : ExecutionLogEntry → Bool
unfolding latest_attempt is_completed_execution_attempt
is_completed_execution_log_entry e = is_completed_execution_attempt (latest_attempt e)

abbrev attempt_failed : ExecutionAttempt → Bool
attempt_failed (failed b f t) = true
attempt_failed (timed_out b f t) = true
attempt_failed _ = false

unfoldable pub is_failed_execution_log_entry : ExecutionLogEntry → Bool
unfolding latest_attempt
is_failed_execution_log_entry e = attempt_failed (latest_attempt e)

pub record ClaimExecutionRequest : Type 0 where
  pub execution_id : Text
  pub operation : Operation
  pub correlation_id : Text
  pub lease_owner_id : Text
  pub lease_duration_ms : ℕ
  pub requested_at : Timestamp

pub data ClaimExecutionResult : Type 0 where
  claimed : InProgressExecutionLogEntry → ClaimExecutionResult
  completed : CompletedExecutionLogEntry → ClaimExecutionResult
  already_in_progress : InProgressExecutionLogEntry → ClaimExecutionResult
  intent_conflict : ExecutionLogEntry → ClaimExecutionResult

pub data ExecutionTransitionRejected : Type 0 where
  not_found : ExecutionTransitionRejected
  not_in_progress : ExecutionLogEntry → ExecutionTransitionRejected
  lease_conflict : InProgressExecutionLogEntry → ExecutionTransitionRejected

pub record CompleteExecutionRequest : Type 0 where
  pub execution_id : Text
  pub attempt_id : Text
  pub lease : ExecutionLeaseReference
  pub result : OperationResult
  pub finished_at : Timestamp

pub data CompleteExecutionResult : Type 0 where
  completed : CompletedExecutionLogEntry → CompleteExecutionResult
  rejected : ExecutionTransitionRejected → CompleteExecutionResult

pub record FailExecutionRequest : Type 0 where
  pub execution_id : Text
  pub attempt_id : Text
  pub lease : ExecutionLeaseReference
  pub status : FailedAttemptStatus
  pub failure : ExecutionFailure
  pub finished_at : Timestamp

pub data FailExecutionResult : Type 0 where
  failed : FailedExecutionLogEntry → FailExecutionResult
  rejected : ExecutionTransitionRejected → FailExecutionResult
