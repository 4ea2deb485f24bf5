-- ===== src/Runner/Execute.antt =====
-- DefaultRunner: the retry loop, the claim and `executeDetailed`. The loop takes fuel; running out
-- is logged, and `Runner/Protocol` proves that it never happens.
use event_driven_platform.Prelude.{
  ℕ, zero, suc, ◌+◌, Text, Bool, false, ◌&&◌, Option, none, some, ◌∷◌, ltb, if◌then◌else◌,
}
use event_driven_platform.Effects.{ok, err, pure, throw, ◌>>=◌, ◌>>◌}
use event_driven_platform.Domain.{OperationResult, is_operation_rejection}
use event_driven_platform.Execution.{Timestamp, duration, other_value, normalize_execution_failure}
use event_driven_platform.ExecutionLog.{
  InProgressExecutionLogEntry, CompletedExecutionLogEntry, ClaimExecutionResult, claimed, completed,
  already_in_progress, intent_conflict, ExecutionLogEntry,
}
use event_driven_platform.Command.{Command, RetryOptions}
use event_driven_platform.Retry.{calculate_retry_delay}
use event_driven_platform.Runner.Errors
use event_driven_platform.Runner.Errors.{Error, foreign, ClaimRejectionReason, thrown, is_timed_out}
use event_driven_platform.Runner.Environment.{
  Handler, Run, ObservationContext, RunOutcome, success, rejected, error, timed_out,
  idempotency_hit, claim_rejected, attempt_started, attempt_completed, retry_scheduled, waited,
  ran_out_of_fuel, logged, now, observe,
}
use event_driven_platform.Runner.Policies.{Runner, option, claim_execution}
use event_driven_platform.Runner.Attempt.{
  stored, RunnerExecution, HandlerAttemptOutcome, execute_handler_attempt,
}

unfoldable pub create_observation_context : {Number : Type 0} → Command Number → ObservationContext
create_observation_context command = record {
  operation = command.operation.name;
  tenant = command.operation.tenant;
  intent_id = command.operation.intent.id;
  correlation_id = command.correlation_id;
}

unfoldable pub entry_execution_id : ExecutionLogEntry → Text
entry_execution_id (ExecutionLogEntry.in_progress e) = e.base.execution_id
entry_execution_id (ExecutionLogEntry.completed e) = e.base.execution_id
entry_execution_id (ExecutionLogEntry.failed e) = e.base.execution_id

-- `isOperationRejection(result) ? 'rejected' : 'success'`
abbrev pub result_outcome : OperationResult → RunOutcome
result_outcome result = if is_operation_rejection result then rejected else success

-- `error instanceof ExecutionTimedOutError ? 'timed-out' : 'error'`
abbrev pub error_outcome : Error → RunOutcome
error_outcome e = if is_timed_out e then timed_out else error

module _ {W Number : Type 0} (r : Runner W Number) where
  -- the case `completed` of both `switch (claim.type)`
  unfoldable pub replay :
      ObservationContext → CompletedExecutionLogEntry → Run W Number RunnerExecution
  unfolding observe
  replay context entry = do
    observe r.dependencies (idempotency_hit context)
    pure (record {
      execution_id = entry.base.execution_id;
      result_source = stored;
      result = entry.result;
    })

  -- the two cases that refuse the claim
  unfoldable pub refuse :
      ObservationContext → Text → ClaimRejectionReason → Run W Number RunnerExecution
  unfolding observe
  refuse context execution_id reason = do
    observe r.dependencies (claim_rejected context reason)
    throw (Errors.claim_rejected execution_id reason)

  -- `switch (claim.type)`, with what follows a granted claim
  unfoldable pub dispatch_claim :
      ObservationContext
      → (InProgressExecutionLogEntry → Run W Number RunnerExecution)
      → ClaimExecutionResult
      → Run W Number RunnerExecution
  unfolding replay refuse entry_execution_id
  dispatch_claim context granted (completed entry) = replay context entry
  dispatch_claim context granted (already_in_progress entry) =
      refuse context entry.base.execution_id ClaimRejectionReason.already_in_progress
  dispatch_claim context granted (intent_conflict entry) =
      refuse context (entry_execution_id entry) ClaimRejectionReason.intent_conflict
  dispatch_claim context granted (claimed entry) = granted entry

  unfoldable pub delay_for : RetryOptions Number → ℕ → Run W Number Number
  unfolding calculate_retry_delay
  delay_for retry retry_number s =
      let (delay_ms, w) =
        calculate_retry_delay r.dependencies.numbers r.dependencies.random retry.strategy
          retry_number s.world in
      (ok delay_ms, record s { world = w })

  -- the delay before the next claim
  unfoldable pub wait_before_retry :
      ObservationContext → RetryOptions Number → ℕ → Run W Number (Unit {0})
  unfolding delay_for observe logged
  wait_before_retry context retry retry_number = do
    delay_ms ← delay_for retry retry_number
    observe r.dependencies (retry_scheduled context retry_number delay_ms)
    if r.dependencies.numbers.is_positive delay_ms
        then logged (r.dependencies.wait delay_ms) (λ _. waited delay_ms)
        else pure tt

  -- a failed attempt: retried under a new claim, or its error is thrown
  unfoldable pub retry_or_throw :
      ObservationContext
      → (InProgressExecutionLogEntry → Run W Number RunnerExecution)
      → Command Number
      → Text
      → ℕ
      → Error
      → (recorded retryable : Bool) → Option (RetryOptions Number)
      → Run W Number RunnerExecution
  unfolding wait_before_retry claim_execution dispatch_claim
  retry_or_throw context again command execution_id n e recorded retryable none = throw e
  retry_or_throw context again command execution_id n e recorded retryable (some retry) =
      if recorded && retryable && ltb n retry.max_attempts
      then (do
        wait_before_retry context retry n
        claim ← claim_execution r command execution_id
        dispatch_claim context again claim)
      else throw e

  -- what follows an attempt, in the loop
  unfoldable pub after_attempt :
      ObservationContext
      → (InProgressExecutionLogEntry → Run W Number RunnerExecution)
      → Command Number
      → Text
      → ℕ
      → Timestamp
      → HandlerAttemptOutcome
      → Run W Number RunnerExecution
  unfolding now observe retry_or_throw is_operation_rejection is_timed_out
      normalize_execution_failure thrown
  after_attempt context again command execution_id n started (HandlerAttemptOutcome.completed x) =
      do
        finished ← now r.dependencies
        observe r.dependencies (
            attempt_completed context n (result_outcome x.result) false (duration started finished))
        pure x
  after_attempt context again command execution_id n started
        (HandlerAttemptOutcome.failed _ e rec) =
      do
        let failure = normalize_execution_failure (thrown e)
        finished ← now r.dependencies
        observe r.dependencies (
            attempt_completed context n (error_outcome e) failure.retryable
              (duration started finished))
        retry_or_throw context again command execution_id n e rec failure.retryable
            (option (λ o. o.retry) command.options)

  -- no part of the program: the loop without fuel
  unfoldable pub run_out : Run W Number RunnerExecution
  run_out s = (err (foreign other_value), record s { trace = ran_out_of_fuel ∷ s.trace })

  -- the `while (true)` of `executeHandlerAttempts`, from attempt number `n` on
  unfoldable pub execute_handler_attempts :
      ObservationContext
      → Command Number
      → Handler W
      → (fuel : ℕ) → InProgressExecutionLogEntry
      → (n : ℕ) → Run W Number RunnerExecution
  unfolding run_out now observe execute_handler_attempt after_attempt
  execute_handler_attempts context command handler zero entry n = run_out
  execute_handler_attempts context command handler (suc fuel) entry n = (do
    started ← now r.dependencies
    observe r.dependencies (attempt_started context n)
    outcome ← execute_handler_attempt r.dependencies command handler entry
    after_attempt context
        (λ next. execute_handler_attempts context command handler fuel next (n + 1)) command
        entry.base.execution_id n started outcome)
