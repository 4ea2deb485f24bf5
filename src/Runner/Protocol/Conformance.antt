-- ===== src/Runner/Protocol/Conformance.antt =====
-- The Runner keeps the protocol from the first call to the last.
use event_driven_platform.Prelude.{
  ◌≡◌, refl, false, inl, inr, List, [], ◌∷◌, Option, none, some, arith,
}
use event_driven_platform.Effects.{Result, ok, err, lift}
use event_driven_platform.Effects.Hoare.{
  Post, Triple, Triple-pure, Triple-throw, Triple-bind, Triple-attempt, weaken,
}
use event_driven_platform.Execution.{Timestamp, duration}
use event_driven_platform.ExecutionLog.{InProgressExecutionLogEntry, FailedAttemptStatus}
use event_driven_platform.Command.{Command, RetryOptions}
use event_driven_platform.Runner.Errors.{Error}
use event_driven_platform.Runner.Environment.{
  State, ObservationContext, Observation, observed, execution_requested, execution_started,
  execution_completed, Call,
}
use event_driven_platform.Runner.Policies.{Runner, option}
use event_driven_platform.Runner.Attempt.{RunnerExecution}
use event_driven_platform.Runner.Execute.{create_observation_context, result_outcome, error_outcome}
use event_driven_platform.Runner.Detailed.{
  fuel_for, record_and_throw, reject_by_policy, resolve_and_run, execute_claimed, observe_success,
  observe_error, execute_observed_claimed, execute_detailed,
}
use event_driven_platform.Runner.Protocol.{held_of, idle, leased, after_claim, At, On}
use event_driven_platform.Runner.Protocol.Primitives.{now-On, observe-At, observe-On}
use event_driven_platform.Runner.Protocol.Failure.{Recorded, record_execution_failure-Triple}
use event_driven_platform.Runner.Protocol.Claims.{
  ReturnPost, ThrowPost, closed, dispatch_claim-Triple, claim_execution-Triple,
}
use event_driven_platform.Runner.Protocol.Loop.{
  HasFuel, give_up-Triple, execute_handler_attempts-Triple,
}
use event_driven_platform.Runner.Protocol.Policies.{apply_policies-Triple, observe_rejection-Triple}

lift-Triple :
    {S E A : Type 0} (P : S → Type 0) (x : Result E A) → Triple P (lift x) (λ _. P) (λ _. P)
lift-Triple P (ok a) = record { at = λ s p. p }
lift-Triple P (err e) = record { at = λ s p. p }

module _ {W Number : Type 0} (r : Runner W Number) (context : ObservationContext)
    (command : Command Number) (entry : InProgressExecutionLogEntry) where
  record_and_throw-Triple :
      (e : Error)
      → Triple
          (On (At (leased (held_of entry) false)))
          (record_and_throw r entry e)
          (λ x. On (ReturnPost x))
          (λ _. On ThrowPost)
  unfolding record_and_throw
  record_and_throw-Triple e =
      weaken
        (Triple-bind (λ recorded. On (Recorded (held_of entry) recorded))
          (record_execution_failure-Triple r.dependencies entry e FailedAttemptStatus.failed
            (λ _. On ThrowPost))
          (give_up-Triple r context command entry e))
        (λ s p. (p.0, (false, p.1))) (λ x s p. p) (λ x s p. p)

  reject_by_policy-Triple :
      (e : Error)
      → Triple
          (On (At (leased (held_of entry) false)))
          (reject_by_policy r context entry e)
          (λ x. On (ReturnPost x))
          (λ _. On ThrowPost)
  unfolding reject_by_policy
  reject_by_policy-Triple e =
      Triple-bind (λ _. On (At (leased (held_of entry) false)))
        (observe_rejection-Triple r (held_of entry) context e _) (λ _. record_and_throw-Triple e)

  enough_fuel : (o : Option (RetryOptions Number)) → HasFuel (fuel_for o) 1 o
  enough_fuel none = omega arith
  enough_fuel (some retry) = (omega arith, omega arith)

  resolve_and_run-Triple :
      Triple
        (On (At (leased (held_of entry) false)))
        (resolve_and_run r context command entry)
        (λ x. On (ReturnPost x))
        (λ _. On ThrowPost)
  unfolding resolve_and_run
  resolve_and_run-Triple =
      let o = option (λ o. o.retry) command.options in
      let P : State W Number → Type 0 = On (At (leased (held_of entry) false)) in
      Triple-attempt (λ _. P) (λ _. P) (lift-Triple P (r.dependencies.resolve command.operation))
        (λ handler.
          execute_handler_attempts-Triple r context command handler (fuel_for o) 1 (enough_fuel o)
            entry)
        record_and_throw-Triple

  execute_claimed-Triple :
      Triple
        (On (At (leased (held_of entry) false)))
        (execute_claimed r context command entry)
        (λ x. On (ReturnPost x))
        (λ _. On ThrowPost)
  unfolding execute_claimed
  execute_claimed-Triple =
      Triple-attempt (λ _. On (At (leased (held_of entry) false)))
        (λ _. On (At (leased (held_of entry) false)))
        (apply_policies-Triple r (held_of entry) command) (λ _. resolve_and_run-Triple)
        reject_by_policy-Triple

module _ {Number : Type 0} where
  ReturnPost-observed :
      (x : RunnerExecution) (o : Observation Number) (t : List (Call Number))
      → ReturnPost x t
      → ReturnPost x (observed o ∷ t)
  ReturnPost-observed x o t (inl p) = inl (p.0, ((p.1.0, tt), p.1.1))
  ReturnPost-observed x o t (inr p) = inr (p.0, ((p.1.0, tt), p.1.1))

module _ {W Number : Type 0} (r : Runner W Number) (context : ObservationContext) where
  observe_success-Triple :
      (started : Timestamp) (x : RunnerExecution)
      → Triple
          (On (ReturnPost x))
          (observe_success r context started x)
          (λ y. On (ReturnPost y))
          (λ _. On ThrowPost)
  unfolding observe_success
  observe_success-Triple started x =
      Triple-bind (λ _. On (ReturnPost x)) (now-On r.dependencies (ReturnPost x) _)
        (λ finished.
          let o =
            execution_completed context (result_outcome x.result) (duration started finished) in
          Triple-bind (λ _. On (ReturnPost x))
            (observe-On r.dependencies (ReturnPost x) o (ReturnPost-observed x o) _)
            (λ _. Triple-pure x (λ s p. p)))

  observe_error-Triple :
      (started : Timestamp) (e : Error)
      → Triple
          (On ThrowPost)
          (observe_error r context started e)
          (λ y. On (ReturnPost y))
          (λ _. On ThrowPost)
  unfolding observe_error
  observe_error-Triple started e =
      Triple-bind (λ _. On ThrowPost) (now-On r.dependencies ThrowPost _)
        (λ finished.
          Triple-bind (λ _. On ThrowPost)
            (observe-On r.dependencies ThrowPost
              (execution_completed context (error_outcome e) (duration started finished))
              (λ t p. ((p.0, tt), p.1)) _)
            (λ _. Triple-throw e (λ s p. p)))

  execute_observed_claimed-Triple :
      (command : Command Number) (entry : InProgressExecutionLogEntry)
      → Triple
          (On (At (leased (held_of entry) false)))
          (execute_observed_claimed r context command entry)
          (λ x. On (ReturnPost x))
          (λ _. On ThrowPost)
  unfolding execute_observed_claimed
  execute_observed_claimed-Triple command entry =
      let p = leased (held_of entry) false in
      Triple-bind (λ _. On (At p)) (now-On r.dependencies (At p) _)
        (λ started.
          Triple-bind (λ _. On (At p)) (observe-At r.dependencies p (execution_started context) _)
            (λ _.
              Triple-attempt (λ x. On (ReturnPost x)) (λ _. On ThrowPost)
                (execute_claimed-Triple r context command entry) (observe_success-Triple started)
                (observe_error-Triple started)))

module _ {W Number : Type 0} (r : Runner W Number) (command : Command Number) where
  execute_detailed-Triple :
      Triple
        (On (At idle))
        (execute_detailed r command)
        (λ x. On (ReturnPost x))
        (λ _. On ThrowPost)
  unfolding execute_detailed
  execute_detailed-Triple =
      let context = create_observation_context command in
      let id = r.dependencies.create_execution_id command.operation.intent.id in
      Triple-bind (λ _. On (At idle))
        (observe-At r.dependencies idle (execution_requested context) _)
        (λ _.
          Triple-bind (λ _. On (At idle))
            (weaken (lift-Triple {S = State W Number} (On (At idle)) id) (λ s p. p) (λ a s p. p)
              (λ e s p. closed r idle s.trace tt p))
            (λ execution_id.
              Triple-bind (λ claim. On (At (after_claim (ok claim))))
                (claim_execution-Triple r idle command execution_id tt)
                (dispatch_claim-Triple r context (execute_observed_claimed r context command)
                  (execute_observed_claimed-Triple r context command))))

  -- In every environment whose clock, random source, encodeURIComponent and roll back return, and
  -- whatever all its other dependencies answer or throw, a run of executeDetailed that starts
  -- with no call made keeps the protocol: each claim, policy, handler invocation (a call of the
  -- handler, or of the execution timeout with it), completion, failure record, outbox append and
  -- transaction step is made only where the automaton allows it, completions and failures name
  -- the attempt and lease that the latest claim granted, and the loop does not run out of fuel.
  -- If it returns, the result is the one that the run committed (source executed) or the one that
  -- the store had (source stored); if it throws, no transaction is open and the run has committed
  -- no result.
  pub execute_detailed-Conforms :
      (s : State W Number)
      → s.trace ≡ []
      → Post {S = State W Number}
          (λ x. On (ReturnPost x))
          (λ _. On ThrowPost)
          (execute_detailed r command s).0
          (execute_detailed r command s).1
  execute_detailed-Conforms s e = execute_detailed-Triple.at s (rw e (tt, refl))
