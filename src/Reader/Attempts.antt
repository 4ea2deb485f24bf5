-- ===== src/Reader/Attempts.antt =====
-- The source and its retries keep any condition on the log that their calls keep: a rule for
-- executeReadWithRetry, with the number of the attempt as an index.
use event_driven_platform.Prelude.{
  ℕ, zero, suc, ◌+◌, ◌≤◌, ◌<◌, ltb, Bool, true, false, ◌&&◌, if◌then◌else◌, Option, none, some, ◌≡◌,
  refl, sym, List, ◌∷◌, arith,
}
use event_driven_platform.Effects.{ok, err, pure, throw, ◌>>=◌}
use event_driven_platform.Effects.Hoare.{
  Triple, Triple-bind, Triple-attempt, Triple-pure, Triple-throw,
}
use event_driven_platform.Effects.Traced.{Traced, called, called-On, sensed-On}
use event_driven_platform.Execution.{Timestamp, normalize_execution_failure}
use event_driven_platform.Command.{RetryOptions}
use event_driven_platform.Retry.{calculate_retry_delay}
use event_driven_platform.Reader.Errors.{ReaderError, reader_thrown}
use event_driven_platform.Reader.Environment.{
  Read, ReaderObservation, ReaderObservationContext, ReaderCall, observed, source_answered,
  source_completed, read_attempt_started, read_attempt_completed, read_retry_scheduled,
  retry_waited, DefaultReaderDependencies, ReaderRun,
}
use event_driven_platform.Reader.Observations.{observe-Keeps, now-Keeps, observe_since-Keeps}
use event_driven_platform.Reader.Source.{
  run_handler, execute_source, wait_before_attempt, retry_read, read_attempts, read_fuel,
  execute_read_with_retry,
}

-- the attempts that the options allow: one at least
abbrev pub attempt_limit : {Number : Type 0} → Option (RetryOptions Number) → ℕ
attempt_limit none = 1
attempt_limit (some retry) = if ltb 1 retry.max_attempts then retry.max_attempts else 1

one_attempt : {Number : Type 0} (retry : Option (RetryOptions Number)) → 1 ≤ attempt_limit retry
one_attempt none = omega arith
one_attempt (some retry) = ground arith

enough_fuel :
    {Number : Type 0} (retry : Option (RetryOptions Number))
    → attempt_limit retry < 1 + read_fuel retry
enough_fuel none = omega arith
enough_fuel (some retry) = ground arith

next_within :
    {Number : Type 0} (options : RetryOptions Number) (retry : Option (RetryOptions Number)) (n : ℕ)
    → some options ≡ retry
    → (retryable : Bool) → (retryable && ltb n options.max_attempts) ≡ true
    → suc n ≤ attempt_limit retry
next_within options retry n o retryable b = rw (sym o) (ground arith)

-- `Before n` holds before attempt `n`; `After` when one has returned, `Failed` when the last has failed
pub record AttemptLaws {A Number : Type 0} (limit : ℕ)
    (Before : ℕ → List (ReaderCall A Number) → Type 0)
    (After Failed : List (ReaderCall A Number) → Type 0) : Type 0 where
  pub observed_before :
      (n : ℕ) (t : List (ReaderCall A Number)) (o : ReaderObservation Number)
      → Before n t
      → Before n (observed o ∷ t)
  pub observed_after :
      (t : List (ReaderCall A Number)) (o : ReaderObservation Number)
      → After t
      → After (observed o ∷ t)
  pub waited :
      (n : ℕ) (t : List (ReaderCall A Number)) (delay_ms : Number)
      → Before n t
      → Before n (retry_waited delay_ms ∷ t)
  pub returned :
      (n : ℕ) (t : List (ReaderCall A Number)) (a : A)
      → n ≤ limit
      → Before n t
      → After (source_answered (ok a) ∷ t)
  pub threw :
      (n : ℕ) (t : List (ReaderCall A Number)) (e : ReaderError)
      → n ≤ limit
      → Before n t
      → Before (suc n) (source_answered (err e) ∷ t)
  pub gave_up : (n : ℕ) (t : List (ReaderCall A Number)) → n ≤ limit → Before (suc n) t → Failed t

module _ {W A Number : Type 0} (d : DefaultReaderDependencies W A Number)
    (context : ReaderObservationContext) (retry : Option (RetryOptions Number))
    (Before : ℕ → List (ReaderCall A Number) → Type 0)
    (After Failed : List (ReaderCall A Number) → Type 0)
    (laws : AttemptLaws (attempt_limit retry) Before After Failed) where
  abbrev Log : Type 0
  Log = Traced W (ReaderCall A Number)

  abbrev At : ℕ → Log → Type 0
  At n s = Before n s.calls

  abbrev Ends : Log → Type 0
  Ends s = After s.calls

  abbrev Fails : ReaderError → Log → Type 0
  Fails e s = Failed s.calls

  -- one attempt, made by the source executor
  execute_source-Attempt :
      (read : Read) (n : ℕ)
      → n ≤ attempt_limit retry
      → Triple (At n) (execute_source d read context) (λ _. Ends) (λ _. At (suc n))
  unfolding execute_source
  execute_source-Attempt read n h =
      Triple-bind (λ _. At n) (now-Keeps d (Before n) (λ _. At (suc n)))
        (λ t.
          Triple-attempt (λ _. Ends) (λ _. At (suc n))
            (called-On (Before n) (λ _. After) (λ _. Before (suc n))
              (run_handler (d.resolve read) read) source_answered (λ t a b. laws.returned n t a h b)
              (λ t e b. laws.threw n t e h b))
            (λ a.
              Triple-bind (λ _. Ends)
                (observe_since-Keeps d After (λ _. At (suc n)) laws.observed_after
                  (source_completed context true) t)
                (λ _. Triple-pure a (λ s q. q)))
            (λ e.
              Triple-bind (λ _. At (suc n))
                (observe_since-Keeps d (Before (suc n)) (λ _. At (suc n))
                  (laws.observed_before (suc n)) (source_completed context false) t)
                (λ _. Triple-throw e (λ s q. q))))

  wait_if-At :
      (b : Bool) (n : ℕ) (delay_ms : Number)
      → n ≤ attempt_limit retry
      → Triple
          (At (suc n))
          (if b then called (d.retry_delay delay_ms) (λ _. retry_waited delay_ms) else pure tt)
          (λ _. At (suc n))
          Fails
  wait_if-At true n delay_ms h =
      called-On (Before (suc n)) (λ _. Before (suc n)) (λ _. Failed) (d.retry_delay delay_ms) _
        (λ t a b. laws.waited (suc n) t delay_ms b)
        (λ t e b. laws.gave_up n _ h (laws.waited (suc n) t delay_ms b))
  wait_if-At false n delay_ms h = Triple-pure tt (λ s q. q)

  wait_before_attempt-At :
      (options : RetryOptions Number) (n : ℕ)
      → n ≤ attempt_limit retry
      → Triple (At (suc n)) (wait_before_attempt d context options n) (λ _. At (suc n)) Fails
  unfolding wait_before_attempt
  wait_before_attempt-At options n h =
      Triple-bind (λ _. At (suc n))
        (sensed-On (Before (suc n)) Fails
          (calculate_retry_delay d.numbers d.random options.strategy n))
        (λ delay_ms.
          Triple-bind (λ _. At (suc n))
            (observe-Keeps d (Before (suc n)) Fails (laws.observed_before (suc n))
              (read_retry_scheduled context n delay_ms))
            (λ _. wait_if-At (d.numbers.is_positive delay_ms) n delay_ms h))

  -- the next attempt is within the limit if the loop makes it
  again_or_throw-Keeps :
      (b : Bool) (again : ReaderRun W A Number A) (options : RetryOptions Number) (n : ℕ)
      (e : ReaderError)
      → n ≤ attempt_limit retry
      → (b ≡ true → Triple (At (suc n)) again (λ _. Ends) Fails)
      → Triple
          (At (suc n))
          (if b then (wait_before_attempt d context options n >>= λ _. again) else throw e)
          (λ _. Ends)
          Fails
  again_or_throw-Keeps true again options n e h k =
      Triple-bind (λ _. At (suc n)) (wait_before_attempt-At options n h) (λ _. k refl)
  again_or_throw-Keeps false again options n e h k =
      Triple-throw e (λ s q. laws.gave_up n s.calls h q)

  retry_read-Keeps :
      (options : Option (RetryOptions Number)) (again : ReaderRun W A Number A) (n : ℕ)
      (t : Timestamp) (e : ReaderError)
      → options ≡ retry
      → n ≤ attempt_limit retry
      → (suc n ≤ attempt_limit retry → Triple (At (suc n)) again (λ _. Ends) Fails)
      → Triple (At (suc n)) (retry_read d context options again n t e) (λ _. Ends) Fails
  unfolding retry_read
  retry_read-Keeps none again n t e o h k =
      Triple-bind (λ _. At (suc n))
        (observe_since-Keeps d (Before (suc n)) Fails (laws.observed_before (suc n))
          (read_attempt_completed context n false
            (normalize_execution_failure (reader_thrown e)).retryable)
          t)
        (λ _. Triple-throw e (λ s q. laws.gave_up n s.calls h q))
  retry_read-Keeps (some options) again n t e o h k =
      let failure = normalize_execution_failure (reader_thrown e) in
      Triple-bind (λ _. At (suc n))
        (observe_since-Keeps d (Before (suc n)) Fails (laws.observed_before (suc n))
          (read_attempt_completed context n false failure.retryable) t)
        (λ _.
          again_or_throw-Keeps (failure.retryable && ltb n options.max_attempts) again options n e h
            (λ b. k (next_within options retry n o failure.retryable b)))

  -- the loop, with a round of fuel for each attempt within the limit
  read_attempts-Keeps :
      (work : ReaderRun W A Number A)
      → ((n : ℕ) → n ≤ attempt_limit retry → Triple (At n) work (λ _. Ends) (λ _. At (suc n)))
      → (fuel n : ℕ) → n ≤ attempt_limit retry
      → attempt_limit retry < n + fuel
      → Triple (At n) (read_attempts d context retry work fuel n) (λ _. Ends) Fails
  unfolding read_attempts
  read_attempts-Keeps work w zero n h f = absurd (omega arith)
  read_attempts-Keeps work w (suc fuel) n h f =
      Triple-bind (λ _. At n) (now-Keeps d (Before n) Fails)
        (λ t.
          Triple-bind (λ _. At n)
            (observe-Keeps d (Before n) Fails (laws.observed_before n)
              (read_attempt_started context n))
            (λ _.
              Triple-attempt (λ _. Ends) (λ _. At (suc n)) (w n h)
                (λ a.
                  Triple-bind (λ _. Ends)
                    (observe_since-Keeps d After Fails laws.observed_after
                      (read_attempt_completed context n true false) t)
                    (λ _. Triple-pure a (λ s q. q)))
                (λ e.
                  retry_read-Keeps retry (read_attempts d context retry work fuel (suc n)) n t e
                    refl h (λ h'. read_attempts-Keeps work w fuel (suc n) h' (omega arith)))))

  -- executeReadWithRetry over the source executor, whatever the log was before
  pub source_with_retry-Keeps :
      (read : Read)
      → Triple
          (At 1)
          (execute_read_with_retry d context retry (execute_source d read context))
          (λ _. Ends)
          Fails
  unfolding execute_read_with_retry
  source_with_retry-Keeps read =
      read_attempts-Keeps (execute_source d read context) (execute_source-Attempt read)
        (read_fuel retry) 1 (one_attempt retry) (enough_fuel retry)
