-- ===== src/Runner/Detailed.antt =====
-- DefaultRunner: `executeClaimed`, `executeObservedClaimed`, `executeDetailed` and `execute`.
use event_driven_platform.Prelude.{ℕ, suc, Option, none, some}
use event_driven_platform.Effects.{pure, throw, lift, ◌>>=◌, ◌>>◌, attempt}
use event_driven_platform.Domain.{OperationResult, is_operation_rejection}
use event_driven_platform.Execution.{Timestamp, duration}
use event_driven_platform.ExecutionLog.{InProgressExecutionLogEntry, FailedAttemptStatus}
use event_driven_platform.Command.{Command, RetryOptions}
use event_driven_platform.Runner.Errors.{Error}
use event_driven_platform.Runner.Errors
use event_driven_platform.Runner.Environment.{
  Run, ObservationContext, execution_requested, execution_started, execution_completed,
  guard_rejected, rate_limit_rejected, now, observe,
}
use event_driven_platform.Runner.Policies.{
  Runner, option, claim_execution, evaluate_guards, enforce_rate_limit,
}
use event_driven_platform.Runner.Attempt.{
  RunnerExecution, get_lease_reference, record_execution_failure,
}
use event_driven_platform.Runner.Execute.{
  create_observation_context, result_outcome, error_outcome, dispatch_claim,
  execute_handler_attempts,
}

-- fuel for the loop: one round for each attempt that the options allow, and one more
abbrev pub fuel_for : {Number : Type 0} → Option (RetryOptions Number) → ℕ
fuel_for none = 2
fuel_for (some retry) = suc (suc retry.max_attempts)

module _ {W Number : Type 0} (r : Runner W Number) where
  -- the two `instanceof` tests of the `catch` of `executeClaimed`
  unfoldable pub observe_rejection : ObservationContext → Error → Run W Number (Unit {0})
  unfolding observe
  observe_rejection context (Errors.guard_rejected g) =
      observe r.dependencies (guard_rejected context)
  observe_rejection context (Errors.rate_limit_rejected l) =
      observe r.dependencies (rate_limit_rejected context)
  observe_rejection context _ = pure tt

  -- a failure before the first attempt is recorded as `failed` and thrown again
  unfoldable pub record_and_throw :
      InProgressExecutionLogEntry → Error → Run W Number RunnerExecution
  unfolding record_execution_failure get_lease_reference
  record_and_throw entry e = do
    record_execution_failure r.dependencies entry (get_lease_reference entry) e
        FailedAttemptStatus.failed
    throw e

  unfoldable pub apply_policies : Command Number → Run W Number (Unit {0})
  unfolding evaluate_guards enforce_rate_limit
  apply_policies command = do evaluate_guards r command; enforce_rate_limit r command

  unfoldable pub reject_by_policy :
      ObservationContext → InProgressExecutionLogEntry → Error → Run W Number RunnerExecution
  unfolding observe_rejection record_and_throw
  reject_by_policy context entry e = do observe_rejection context e; record_and_throw entry e

  unfoldable pub resolve_and_run :
      ObservationContext
      → Command Number
      → InProgressExecutionLogEntry
      → Run W Number RunnerExecution
  unfolding record_and_throw execute_handler_attempts
  resolve_and_run context command entry =
      attempt (lift (r.dependencies.resolve command.operation))
        (λ handler.
          execute_handler_attempts r context command handler
            (fuel_for (option (λ o. o.retry) command.options)) entry 1)
        (record_and_throw entry)

  unfoldable pub execute_claimed :
      ObservationContext
      → Command Number
      → InProgressExecutionLogEntry
      → Run W Number RunnerExecution
  unfolding apply_policies reject_by_policy resolve_and_run
  execute_claimed context command entry =
      attempt (apply_policies command) (λ _. resolve_and_run context command entry)
        (reject_by_policy context entry)

  unfoldable pub observe_success :
      ObservationContext → Timestamp → RunnerExecution → Run W Number RunnerExecution
  unfolding now observe is_operation_rejection
  observe_success context started x = do
    finished ← now r.dependencies
    observe r.dependencies
        (execution_completed context (result_outcome x.result) (duration started finished))
    pure x

  unfoldable pub observe_error :
      ObservationContext → Timestamp → Error → Run W Number RunnerExecution
  unfolding now observe Errors.is_timed_out
  observe_error context started e = do
    finished ← now r.dependencies
    observe r.dependencies
        (execution_completed context (error_outcome e) (duration started finished))
    throw e

  unfoldable pub execute_observed_claimed :
      ObservationContext
      → Command Number
      → InProgressExecutionLogEntry
      → Run W Number RunnerExecution
  unfolding now observe execute_claimed observe_success observe_error
  execute_observed_claimed context command entry = do
    started ← now r.dependencies
    observe r.dependencies (execution_started context)
    attempt (execute_claimed context command entry) (observe_success context started)
        (observe_error context started)

  unfoldable pub execute_detailed : Command Number → Run W Number RunnerExecution
  unfolding create_observation_context observe claim_execution dispatch_claim
      execute_observed_claimed
  execute_detailed command = do
    let context = create_observation_context command
    observe r.dependencies (execution_requested context)
    execution_id ← lift (r.dependencies.create_execution_id command.operation.intent.id)
    claim ← claim_execution r command execution_id
    dispatch_claim r context (execute_observed_claimed context command) claim

  unfoldable pub execute : Command Number → Run W Number OperationResult
  unfolding execute_detailed
  execute command = do x ← execute_detailed command; pure x.result
