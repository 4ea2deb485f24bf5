-- ===== src/Runner/Protocol/Loop.antt =====
-- The retry loop keeps the protocol, and never runs out of the fuel that it is given.
use event_driven_platform.Prelude.{
  ◌≡◌, Bool, true, false, inl, inr, List, ◌∷◌, Option, none, some, ℕ, zero, suc, ◌+◌, ◌<◌,
  Bool-cases, ltb, arith, Text,
}
use event_driven_platform.Effects.{ok, throw, ◌>>=◌}
use event_driven_platform.Effects.Hoare.{
  Triple, Triple-pure, Triple-throw, Triple-bind, Triple-frame,
}
use event_driven_platform.Execution.{Timestamp, duration, normalize_execution_failure}
use event_driven_platform.ExecutionLog.{InProgressExecutionLogEntry}
use event_driven_platform.Command.{Command, RetryOptions}
use event_driven_platform.Runner.Errors.{Error, thrown}
use event_driven_platform.Runner.Environment.{
  State, Run, Call, Handler, ObservationContext, Observation, observed, attempt_started,
  attempt_completed,
}
use event_driven_platform.Runner.Policies.{Runner, option, claim_execution}
use event_driven_platform.Runner.Attempt.{executed, RunnerExecution, HandlerAttemptOutcome}
use event_driven_platform.Runner.Execute.{
  result_outcome, error_outcome, dispatch_claim, wait_before_retry, retry_or_throw, after_attempt,
  execute_handler_attempts,
}
use event_driven_platform.Runner.Protocol.{Held, held_of, failed, leased, done, after_claim, At, On}
use event_driven_platform.Runner.Protocol.Primitives.{now-On, observe-At, observe-On}
use event_driven_platform.Runner.Protocol.Failure.{Recorded}
use event_driven_platform.Runner.Protocol.Attempts.{AttemptPost, execute_handler_attempt-Triple}
use event_driven_platform.Runner.Protocol.Claims.{
  ReturnPost, ThrowPost, closed, dispatch_claim-Triple, claim_execution-Triple,
  wait_before_retry-Triple,
}

module _ {Number : Type 0} where
  -- the loop goes on only while the attempts allow it, and each round uses one unit of fuel
  abbrev pub HasFuel : ℕ → ℕ → Option (RetryOptions Number) → Type 0
  HasFuel fuel n none = 0 < fuel
  HasFuel fuel n (some retry) = (0 < fuel) × (retry.max_attempts < fuel + n)

  has_fuel : (n : ℕ) (o : Option (RetryOptions Number)) → HasFuel 0 n o → ⊥
  has_fuel n none h = omega arith
  has_fuel n (some retry) h = omega arith

  Recorded-observed :
      (h : Held) (recorded : Bool) (o : Observation Number) (t : List (Call Number))
      → Recorded h recorded t
      → Recorded h recorded (observed o ∷ t)
  Recorded-observed h true o t p = ((p.0, tt), p.1)
  Recorded-observed h false o t p = ((p.0, tt), p.1)

  next_round :
      (fuel n : ℕ) (retry : RetryOptions Number)
      → HasFuel (suc fuel) n (some retry)
      → ltb n retry.max_attempts ≡ true
      → HasFuel fuel (n + 1) (some retry)
  next_round fuel n retry h more = ground arith

module _ {W Number : Type 0} (r : Runner W Number) (context : ObservationContext)
    (command : Command Number) where
  -- the error of a failed attempt is thrown where the attempt left the run
  pub give_up-Triple :
      (entry : InProgressExecutionLogEntry) (e : Error) (recorded : Bool)
      → Triple {S = State W Number} {A = RunnerExecution}
          (On (Recorded (held_of entry) recorded))
          (throw e)
          (λ x. On (ReturnPost x))
          (λ _. On ThrowPost)
  give_up-Triple entry e true = Triple-throw e (λ s p. closed r failed s.trace tt p)
  give_up-Triple entry e false =
      Triple-throw e (λ s p. closed r (leased (held_of entry) p.1.0) s.trace tt (p.0, p.1.1))

  -- the loop keeps the protocol under a fresh lease, with fuel for the attempts that are left
  abbrev Again :
      ℕ
      → ℕ
      → Option (RetryOptions Number)
      → (InProgressExecutionLogEntry → Run W Number RunnerExecution)
      → Type 0
  Again fuel n o again =
      HasFuel fuel n o
      → (entry : InProgressExecutionLogEntry)
      → Triple (On (At (leased (held_of entry) false))) (again entry) (λ x. On (ReturnPost x))
          (λ _. On ThrowPost)

  reclaim-Triple :
      (again : InProgressExecutionLogEntry → Run W Number RunnerExecution) (execution_id : Text)
      (n : ℕ) (retry : RetryOptions Number)
      → ((entry : InProgressExecutionLogEntry)
          → Triple
              (On (At (leased (held_of entry) false)))
              (again entry)
              (λ x. On (ReturnPost x))
              (λ _. On ThrowPost))
      → Triple
          (On (At failed))
          (wait_before_retry r context retry n >>= λ _.
            claim_execution r command execution_id >>= dispatch_claim r context again)
          (λ x. On (ReturnPost x))
          (λ _. On ThrowPost)
  reclaim-Triple again execution_id n retry g =
      Triple-bind (λ _. On (At failed)) (wait_before_retry-Triple r context retry n)
        (λ _.
          Triple-bind (λ claim. On (At (after_claim (ok claim))))
            (claim_execution-Triple r failed command execution_id tt)
            (dispatch_claim-Triple r context again g))

  retry_or_throw-Triple :
      (entry : InProgressExecutionLogEntry) (fuel n : ℕ)
      (again : InProgressExecutionLogEntry → Run W Number RunnerExecution) (execution_id : Text)
      (e : Error) (recorded retryable : Bool) (o : Option (RetryOptions Number))
      → HasFuel (suc fuel) n o
      → Again fuel (n + 1) o again
      → Triple
          (On (Recorded (held_of entry) recorded))
          (retry_or_throw r context again command execution_id n e recorded retryable o)
          (λ x. On (ReturnPost x))
          (λ _. On ThrowPost)
  unfolding retry_or_throw
  retry_or_throw-Triple entry fuel n again execution_id e recorded retryable none h g =
      give_up-Triple entry e recorded
  retry_or_throw-Triple entry fuel n again execution_id e false retryable (some retry) h g =
      give_up-Triple entry e false
  retry_or_throw-Triple entry fuel n again execution_id e true false (some retry) h g =
      give_up-Triple entry e true
  retry_or_throw-Triple entry fuel n again execution_id e true true (some retry) h g =
      elim (Bool-cases (ltb n retry.max_attempts)) [
        | inl more ↦
            rw more (reclaim-Triple again execution_id n retry (g (next_round fuel n retry h more)))
        | inr last ↦ rw last (give_up-Triple entry e true)
      ]

  after_attempt-Triple :
      (entry : InProgressExecutionLogEntry) (fuel n : ℕ)
      (again : InProgressExecutionLogEntry → Run W Number RunnerExecution) (execution_id : Text)
      (started : Timestamp) (outcome : HandlerAttemptOutcome)
      → HasFuel (suc fuel) n (option (λ o. o.retry) command.options)
      → Again fuel (n + 1) (option (λ o. o.retry) command.options) again
      → Triple
          (On (AttemptPost (held_of entry) outcome))
          (after_attempt r context again command execution_id n started outcome)
          (λ x. On (ReturnPost x))
          (λ _. On ThrowPost)
  unfolding after_attempt
  after_attempt-Triple entry fuel n again id started (HandlerAttemptOutcome.completed x) h g =
      Triple-bind (λ _ s. (x.result_source ≡ executed) × At (done x.result) s.trace)
        (Triple-frame (x.result_source ≡ executed) (now-On r.dependencies (At (done x.result)) _))
        (λ finished.
          Triple-bind (λ _ s. (x.result_source ≡ executed) × At (done x.result) s.trace)
            (Triple-frame (x.result_source ≡ executed) (
              observe-At r.dependencies (done x.result)
                (attempt_completed context n (result_outcome x.result) false
                  (duration started finished))
                _))
            (λ _. Triple-pure x (λ s p. inl p)))
  after_attempt-Triple entry fuel n again id started (HandlerAttemptOutcome.failed _ e rec) h g =
      let K = Recorded {Number = Number} (held_of entry) rec in
      Triple-bind (λ _. On K) (now-On r.dependencies K _)
        (λ finished.
          Triple-bind (λ _. On K)
            (observe-On r.dependencies K
              (attempt_completed context n (error_outcome e)
                (normalize_execution_failure (thrown e)).retryable (duration started finished))
              (Recorded-observed (held_of entry) rec _) _)
            (λ _.
              retry_or_throw-Triple entry fuel n again id e rec
                (normalize_execution_failure (thrown e)).retryable
                (option (λ o. o.retry) command.options) h g))

  -- From a fresh lease, with enough fuel, the loop keeps the protocol.
  pub execute_handler_attempts-Triple :
      (handler : Handler W) (fuel n : ℕ)
      → Again fuel n
          (option (λ o. o.retry) command.options)
          (λ entry. execute_handler_attempts r context command handler fuel entry n)
  unfolding execute_handler_attempts
  execute_handler_attempts-Triple handler zero n h entry =
      absurd (has_fuel n (option (λ o. o.retry) command.options) h)
  execute_handler_attempts-Triple handler (suc fuel) n h entry =
      let p = leased (held_of entry) false in
      Triple-bind (λ _. On (At p)) (now-On r.dependencies (At p) _)
        (λ started.
          Triple-bind (λ _. On (At p)) (observe-At r.dependencies p (attempt_started context n) _)
            (λ _.
              Triple-bind (λ o. On (AttemptPost (held_of entry) o))
                (execute_handler_attempt-Triple r.dependencies entry command handler _)
                (λ o.
                  after_attempt-Triple entry fuel n
                    (λ next. execute_handler_attempts r context command handler fuel next (n + 1))
                    entry.base.execution_id started o h
                    (execute_handler_attempts-Triple handler fuel (n + 1)))))
