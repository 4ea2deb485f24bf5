-- ===== src/Reader/Source.antt =====
-- packages/reader/src/lib/source/read-source-executor.ts and retry/execute-read-with-retry.ts.
use event_driven_platform.Prelude.{
  ℕ, zero, suc, true, false, ◌&&◌, ltb, if◌then◌else◌, Option, none, some, ◌∷◌,
}
use event_driven_platform.Effects.{Result, ok, err, pure, throw, lift, ◌>>=◌, ◌>>◌, attempt}
use event_driven_platform.Effects.Traced.{called, sensed}
use event_driven_platform.Execution.{Timestamp, normalize_execution_failure, other_value}
use event_driven_platform.Command.{RetryOptions}
use event_driven_platform.Retry.{calculate_retry_delay}
use event_driven_platform.Reader.Errors.{
  ReaderError, handler_not_found, handler_ambiguous, foreign, reader_thrown,
}
use event_driven_platform.Reader.Environment.{
  Read, ReaderMethod, ReadHandlerResolution, resolved, not_found, ambiguous,
  ReaderObservationContext, source_completed, read_attempt_started, read_attempt_completed,
  read_retry_scheduled, DefaultReaderDependencies, source_answered, retry_waited, ran_out_of_fuel,
  ReaderRun, reader_now, reader_observe, observe_since,
}

-- the first handler of the resolution, or the error for its status
unfoldable pub resolve_handler :
    {W A : Type 0} → ReadHandlerResolution W A → Result ReaderError (Read → ReaderMethod W A)
resolve_handler (resolved first rest) = ok first
resolve_handler not_found = err handler_not_found
resolve_handler (ambiguous reason) = err (handler_ambiguous reason)

-- `resolver.resolve(read)`, the handler, and its `execute`; what any of them throws is the answer
unfoldable pub run_handler :
    {W A : Type 0} → Result ReaderError (ReadHandlerResolution W A) → Read → ReaderMethod W A
unfolding resolve_handler
run_handler resolution read = do
  found ← lift resolution
  handler ← lift (resolve_handler found)
  handler read

module _ {W A Number : Type 0} (d : DefaultReaderDependencies W A Number) where
  -- ReadSourceExecutor.execute
  unfoldable pub execute_source : Read → ReaderObservationContext → ReaderRun W A Number A
  unfolding reader_now called run_handler observe_since
  execute_source read context = do
    started_at ← reader_now d
    attempt (called (run_handler (d.resolve read) read) source_answered)
        (λ result. do observe_since d (source_completed context true) started_at; pure result)
        (λ e. do observe_since d (source_completed context false) started_at; throw e)

  -- the wait before the next attempt
  unfoldable pub wait_before_attempt :
      ReaderObservationContext → RetryOptions Number → ℕ → ReaderRun W A Number (Unit {0})
  unfolding sensed reader_observe called calculate_retry_delay
  wait_before_attempt context retry attempt_number = do
    delay_ms ← sensed (calculate_retry_delay d.numbers d.random retry.strategy attempt_number)
    reader_observe d (read_retry_scheduled context attempt_number delay_ms)
    if d.numbers.is_positive delay_ms
        then called (d.retry_delay delay_ms) (λ _. retry_waited delay_ms)
        else pure tt

  -- the `catch` of the loop: the next attempt, or the error again
  unfoldable pub retry_read :
      ReaderObservationContext
      → Option (RetryOptions Number)
      → ReaderRun W A Number A
      → ℕ
      → Timestamp
      → ReaderError
      → ReaderRun W A Number A
  unfolding observe_since wait_before_attempt normalize_execution_failure reader_thrown
  retry_read context none again n started_at e = do
    let failure = normalize_execution_failure (reader_thrown e)
    observe_since d (read_attempt_completed context n false failure.retryable) started_at
    throw e
  retry_read context (some retry) again n started_at e = do
    let failure = normalize_execution_failure (reader_thrown e)
    observe_since d (read_attempt_completed context n false failure.retryable) started_at
    if failure.retryable && ltb n retry.max_attempts
        then (wait_before_attempt context retry n >>= λ _. again)
        else throw e

  -- no part of the program: a loop without fuel
  unfoldable pub out_of_fuel : ReaderRun W A Number A
  out_of_fuel s = (err (foreign other_value), record s { calls = ran_out_of_fuel ∷ s.calls })

  -- the `for (;;)`, from attempt number `n` on
  unfoldable pub read_attempts :
      ReaderObservationContext
      → Option (RetryOptions Number)
      → ReaderRun W A Number A
      → (fuel n : ℕ) → ReaderRun W A Number A
  unfolding reader_now reader_observe observe_since retry_read out_of_fuel
  read_attempts context retry work zero n = out_of_fuel
  read_attempts context retry work (suc fuel) n = (do
    started_at ← reader_now d
    reader_observe d (read_attempt_started context n)
    attempt work
        (λ result. do
          observe_since d (read_attempt_completed context n true false) started_at
          pure result)
        (retry_read context retry (read_attempts context retry work fuel (suc n)) n started_at))

-- fuel for the loop: one round for each attempt that the options allow, and one more
abbrev pub read_fuel : {Number : Type 0} → Option (RetryOptions Number) → ℕ
read_fuel none = 1
read_fuel (some retry) = suc retry.max_attempts

module _ {W A Number : Type 0} (d : DefaultReaderDependencies W A Number) where
  -- executeReadWithRetry
  unfoldable pub execute_read_with_retry :
      ReaderObservationContext
      → Option (RetryOptions Number)
      → ReaderRun W A Number A
      → ReaderRun W A Number A
  unfolding read_attempts
  execute_read_with_retry context retry work =
      read_attempts d context retry work (read_fuel retry) 1
