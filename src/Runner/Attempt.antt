-- ===== src/Runner/Attempt.antt =====
-- DefaultRunner: one handler attempt, in one transaction with the completion and the outbox, and the
-- recording of its failure. ExecutionTransaction is ScopedExecutionTransaction.
use event_driven_platform.Prelude.{ℕ, Text, Bool, true, false, Option, none, some, if◌then◌else◌}
use event_driven_platform.Effects.{pure, throw, ◌>>=◌, ◌>>◌, attempt}
use event_driven_platform.Domain.{
  Operation, OperationResult, events, is_rolled_back_operation_rejection,
}
use event_driven_platform.Execution.{
  Timestamp, ExecutionLeaseReference, normalize_execution_failure,
}
use event_driven_platform.ExecutionLog.{
  InProgressExecutionLogEntry, CompleteExecutionRequest, CompleteExecutionResult,
  FailExecutionRequest, FailExecutionResult, FailedAttemptStatus,
}
use event_driven_platform.Command.{Command}
use event_driven_platform.Transaction
use event_driven_platform.Transaction.{ExecutionTransactionOutcome, commit, rollback}
use event_driven_platform.Runner.Errors.{
  Error, execution_timed_out, transition_rejected, complete, fail, thrown, failure_status,
}
use event_driven_platform.Runner.Environment.{
  Dependencies, Handler, Run, TimeoutResult, timed_out, handler_invoked, complete_answered,
  fail_answered, append_answered, logged, silent, now, adapter,
}
use event_driven_platform.Runner.Policies.{option}

pub data ResultSource : Type 0 where
  executed stored : ResultSource

pub record RunnerExecution : Type 0 where
  pub execution_id : Text
  pub result_source : ResultSource
  pub result : OperationResult

pub data HandlerAttemptOutcome : Type 0 where
  completed : RunnerExecution → HandlerAttemptOutcome
  failed : InProgressExecutionLogEntry → Error → (failure_recorded : Bool) → HandlerAttemptOutcome

unfoldable pub get_lease_reference : InProgressExecutionLogEntry → ExecutionLeaseReference
get_lease_reference entry = record {
  owner_id = entry.lease.owner_id;
  version = entry.lease.version;
}

-- the arguments of `executionLogStore.complete` and `executionLogStore.fail`
abbrev pub complete_request :
    InProgressExecutionLogEntry
    → ExecutionLeaseReference
    → OperationResult
    → Timestamp
    → CompleteExecutionRequest
complete_request entry lease result finished_at = record {
  execution_id = entry.base.execution_id;
  attempt_id = entry.latest_attempt.attempt_id;
  lease = lease;
  result = result;
  finished_at = finished_at;
}

abbrev pub fail_request :
    InProgressExecutionLogEntry
    → ExecutionLeaseReference
    → Error
    → FailedAttemptStatus
    → Timestamp
    → FailExecutionRequest
fail_request entry lease error status finished_at = record {
  execution_id = entry.base.execution_id;
  attempt_id = entry.latest_attempt.attempt_id;
  lease = lease;
  status = status;
  failure = normalize_execution_failure (thrown error);
  finished_at = finished_at;
}

module _ {W Number : Type 0} (d : Dependencies W Number) where
  unfoldable pub timed_result : ℕ → TimeoutResult OperationResult → Run W Number OperationResult
  timed_result timeout_ms (TimeoutResult.completed result) = pure result
  timed_result timeout_ms timed_out = throw (execution_timed_out timeout_ms)

  -- one call of the handler, or one of `executionTimeout.execute` with the work that calls it
  unfoldable pub execute_handler_for :
      Option ℕ → Operation → Handler W → Run W Number OperationResult
  unfolding logged timed_result
  execute_handler_for none op handler = logged (handler op) (λ _. handler_invoked op)
  execute_handler_for (some timeout_ms) op handler = do
    timed ← logged (d.execution_timeout (handler op) timeout_ms) (λ _. handler_invoked op)
    timed_result timeout_ms timed

  unfoldable pub execute_handler_with_timeout :
      Command Number → Handler W → Run W Number OperationResult
  unfolding execute_handler_for
  execute_handler_with_timeout command handler =
      execute_handler_for (option (λ o. o.timeout_ms) command.options) command.operation handler

  unfoldable pub assert_completed : Text → CompleteExecutionResult → Run W Number (Unit {0})
  assert_completed execution_id (CompleteExecutionResult.completed e) = pure tt
  assert_completed execution_id (CompleteExecutionResult.rejected r) =
      throw (transition_rejected execution_id complete r)

  unfoldable pub assert_failed : Text → FailExecutionResult → Run W Number (Unit {0})
  assert_failed execution_id (FailExecutionResult.failed e) = pure tt
  assert_failed execution_id (FailExecutionResult.rejected r) =
      throw (transition_rejected execution_id fail r)

  -- the call of `executionLogStore.complete` and the assertion after it
  unfoldable pub complete_entry :
      InProgressExecutionLogEntry
      → ExecutionLeaseReference
      → OperationResult
      → Run W Number (Unit {0})
  unfolding now logged assert_completed
  complete_entry entry lease result = do
    finished_at ← now d
    let request = complete_request entry lease result finished_at
    completion ← logged (d.complete request) (complete_answered request)
    assert_completed entry.base.execution_id completion

  -- the envelopes, the records, the completion and the outbox, in this order
  unfoldable pub publish_result :
      Command Number
      → InProgressExecutionLogEntry
      → ExecutionLeaseReference
      → OperationResult
      → Run W Number (ExecutionTransactionOutcome OperationResult)
  unfolding silent complete_entry logged
  publish_result command entry lease result = do
    envelopes ← silent (d.create_envelopes command.operation command.correlation_id (events result))
    records ← silent (d.create_records envelopes)
    complete_entry entry lease result
    logged (d.append records) (append_answered records)
    pure (commit result)

  unfoldable pub attempt_work :
      Command Number
      → Handler W
      → InProgressExecutionLogEntry
      → ExecutionLeaseReference
      → Run W Number (ExecutionTransactionOutcome OperationResult)
  unfolding execute_handler_with_timeout publish_result is_rolled_back_operation_rejection
  attempt_work command handler entry lease = do
    result ← execute_handler_with_timeout command handler
    if is_rolled_back_operation_rejection result
        then pure (rollback result)
        else publish_result command entry lease result

  unfoldable pub rolled_back_work :
      InProgressExecutionLogEntry
      → ExecutionLeaseReference
      → OperationResult
      → Run W Number (ExecutionTransactionOutcome (Unit {0}))
  unfolding complete_entry
  rolled_back_work entry lease result = do complete_entry entry lease result; pure (commit tt)

  unfoldable pub complete_rolled_back_result :
      InProgressExecutionLogEntry
      → ExecutionLeaseReference
      → OperationResult
      → Run W Number (Unit {0})
  unfolding Transaction.execute adapter rolled_back_work
  complete_rolled_back_result entry lease result =
      Transaction.execute (adapter d) (rolled_back_work entry lease result)

  unfoldable pub failure_work :
      InProgressExecutionLogEntry
      → ExecutionLeaseReference
      → Error
      → FailedAttemptStatus
      → Run W Number (ExecutionTransactionOutcome (Unit {0}))
  unfolding now logged assert_failed normalize_execution_failure thrown
  failure_work entry lease error status = do
    finished_at ← now d
    let request = fail_request entry lease error status finished_at
    result ← logged (d.fail request) (fail_answered request)
    assert_failed entry.base.execution_id result
    pure (commit tt)

  -- whatever the recording throws is dropped
  unfoldable pub record_execution_failure :
      InProgressExecutionLogEntry
      → ExecutionLeaseReference
      → Error
      → FailedAttemptStatus
      → Run W Number Bool
  unfolding Transaction.execute adapter failure_work
  record_execution_failure entry lease error status =
      attempt (Transaction.execute (adapter d) (failure_work entry lease error status))
        (λ _. pure true) (λ (_ : Error). pure false)

  -- the second transaction, for a result that rolled the first one back
  unfoldable pub settle_result :
      InProgressExecutionLogEntry
      → ExecutionLeaseReference
      → OperationResult
      → Run W Number HandlerAttemptOutcome
  unfolding complete_rolled_back_result is_rolled_back_operation_rejection
  settle_result entry lease result = do
    if is_rolled_back_operation_rejection result
        then complete_rolled_back_result entry lease result
        else pure tt
    pure (
        HandlerAttemptOutcome.completed (record {
          execution_id = entry.base.execution_id;
          result_source = executed;
          result = result;
        }))

  unfoldable pub fail_attempt :
      InProgressExecutionLogEntry
      → ExecutionLeaseReference
      → Error
      → Run W Number HandlerAttemptOutcome
  unfolding record_execution_failure failure_status
  fail_attempt entry lease error = do
    recorded ← record_execution_failure entry lease error (failure_status error)
    pure (failed entry error recorded)

  unfoldable pub execute_handler_attempt :
      Command Number → Handler W → InProgressExecutionLogEntry → Run W Number HandlerAttemptOutcome
  unfolding Transaction.execute adapter attempt_work settle_result fail_attempt get_lease_reference
  execute_handler_attempt command handler entry =
      let lease = get_lease_reference entry in
      attempt
        (Transaction.execute (adapter d) (attempt_work command handler entry lease)
          >>= settle_result entry lease)
        pure (fail_attempt entry lease)
