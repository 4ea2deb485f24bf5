-- ===== src/Runner/Protocol/Attempts.antt =====
-- One handler attempt keeps the protocol: it ends with its result committed, with its failure
-- committed, or with the lease held and no transaction open.
use event_driven_platform.Prelude.{
  ◌≡◌, refl, true, false, inl, inr, List, Bool-cases, if◌then◌else◌,
}
use event_driven_platform.Effects.{pure}
use event_driven_platform.Effects.Hoare.{Triple, Triple-pure, Triple-bind, Triple-attempt, weaken}
use event_driven_platform.Domain.{OperationResult, is_rolled_back_operation_rejection}
use event_driven_platform.ExecutionLog.{InProgressExecutionLogEntry}
use event_driven_platform.Command.{Command}
use event_driven_platform.Runner.Errors.{Error, failure_status}
use event_driven_platform.Runner.Environment.{Dependencies, State, Call, Handler}
use event_driven_platform.Runner.Attempt.{
  executed, HandlerAttemptOutcome, get_lease_reference, complete_rolled_back_result, settle_result,
  fail_attempt, execute_handler_attempt,
}
use event_driven_platform.Runner.Protocol.{Held, held_of, leased, done, At, AtLeased, On}
use event_driven_platform.Runner.Protocol.Transact.{Returned, transact}
use event_driven_platform.Runner.Protocol.Completion.{
  IsRolledBack, IsKept, attempt_work-Triple, rolled_back_work-Triple,
}
use event_driven_platform.Runner.Protocol.Failure.{Recorded, record_execution_failure-Triple}

-- what an attempt leaves behind
abbrev pub AttemptPost :
    {Number : Type 0} → Held → HandlerAttemptOutcome → List (Call Number) → Type 0
AttemptPost h (HandlerAttemptOutcome.completed x) t =
    (x.result_source ≡ executed) × At (done x.result) t
AttemptPost h (HandlerAttemptOutcome.failed entry e recorded) t = Recorded h recorded t

module _ {W Number : Type 0} (d : Dependencies W Number) (entry : InProgressExecutionLogEntry) where
  abbrev h : Held
  h = held_of entry

  finish-Triple :
      (r : OperationResult)
      → Triple {S = State W Number} {E = Error}
          (On (At (done r)))
          (pure (
            HandlerAttemptOutcome.completed (record {
              execution_id = entry.base.execution_id;
              result_source = executed;
              result = r;
            })))
          (λ o. On (AttemptPost h o))
          (λ _. On (AtLeased h))
  finish-Triple r = Triple-pure _ (λ s p. (refl, p))

  rolled-Returned :
      (r : OperationResult) (t : List (Call Number))
      → IsRolledBack r
      → Returned h done IsKept IsRolledBack r t
      → At (leased h true) t
  rolled-Returned r t rolled (inl q) = absurd (cc (rolled, q.0))
  rolled-Returned r t rolled (inr q) = q.1

  kept-Returned :
      (r : OperationResult) (t : List (Call Number))
      → IsKept r
      → Returned h done IsKept IsRolledBack r t
      → At (done r) t
  kept-Returned r t kept (inl q) = q.1
  kept-Returned r t kept (inr q) = absurd (cc (kept, q.0))

  completed-Returned :
      (r : OperationResult) (a : Unit {0}) (t : List (Call Number))
      → Returned h (λ _. done r) (λ _. Unit) (λ _. ⊥) a t
      → At (done r) t
  completed-Returned r a t (inl q) = q.1
  completed-Returned r a t (inr q) = absurd q.0

  complete_rolled_back_result-Triple :
      (r : OperationResult)
      → IsRolledBack r
      → Triple
          (On (At (leased h true)))
          (complete_rolled_back_result d entry (get_lease_reference entry) r)
          (λ _. On (At (done r)))
          (λ _. On (AtLeased h))
  unfolding complete_rolled_back_result
  complete_rolled_back_result-Triple r rolled =
      weaken
        (transact d h (λ _. done r) (λ _. Unit) (λ _. ⊥) true _
          (rolled_back_work-Triple d entry r rolled))
        (λ s p. p) (λ a s p. completed-Returned r a s.trace p) (λ x s p. p)

  settle-Triple :
      (r : OperationResult)
      → Triple
          (On (Returned h done IsKept IsRolledBack r))
          (if is_rolled_back_operation_rejection r
            then complete_rolled_back_result d entry (get_lease_reference entry) r
            else pure tt)
          (λ _. On (At (done r)))
          (λ _. On (AtLeased h))
  settle-Triple r = elim (Bool-cases (is_rolled_back_operation_rejection r)) [
    | inl rolled ↦ rw rolled (
        weaken (complete_rolled_back_result-Triple r rolled)
          (λ s p. rolled-Returned r s.trace rolled p) (λ a s p. p) (λ x s p. p))
    | inr kept ↦ rw kept (Triple-pure tt (λ s p. kept-Returned r s.trace kept p))
  ]

  settle_result-Triple :
      (r : OperationResult)
      → Triple
          (On (Returned h done IsKept IsRolledBack r))
          (settle_result d entry (get_lease_reference entry) r)
          (λ o. On (AttemptPost h o))
          (λ _. On (AtLeased h))
  unfolding settle_result
  settle_result-Triple r =
      Triple-bind (λ _. On (At (done r))) (settle-Triple r) (λ _. finish-Triple r)

  fail_attempt-Triple :
      (e : Error) (R : Error → State W Number → Type 0)
      → Triple
          (On (AtLeased h))
          (fail_attempt d entry (get_lease_reference entry) e)
          (λ o. On (AttemptPost h o))
          R
  unfolding fail_attempt
  fail_attempt-Triple e R =
      Triple-bind (λ recorded. On (Recorded h recorded))
        (record_execution_failure-Triple d entry e (failure_status e) R)
        (λ recorded. Triple-pure _ (λ s p. p))

  -- An attempt under a fresh lease keeps the protocol, and throws nothing.
  pub execute_handler_attempt-Triple :
      (command : Command Number) (handler : Handler W) (R : Error → State W Number → Type 0)
      → Triple
          (On (At (leased h false)))
          (execute_handler_attempt d command handler entry)
          (λ o. On (AttemptPost h o))
          R
  unfolding execute_handler_attempt
  execute_handler_attempt-Triple command handler R =
      Triple-attempt (λ o. On (AttemptPost h o)) (λ _. On (AtLeased h))
        (Triple-bind (λ r. On (Returned h done IsKept IsRolledBack r))
          (transact d h done IsKept IsRolledBack false _
            (attempt_work-Triple d entry command handler))
          settle_result-Triple)
        (λ o. Triple-pure o (λ s p. p)) (λ e. fail_attempt-Triple e R)
