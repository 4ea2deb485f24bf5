-- ===== src/Runner/Protocol/Failure.antt =====
-- Recording a failure keeps the protocol, and says whether the failure is committed.
use event_driven_platform.Prelude.{refl, Bool, true, false, inl, inr, List, ℕ}
use event_driven_platform.Effects.{ok}
use event_driven_platform.Effects.Hoare.{
  Triple, Triple-pure, Triple-throw, Triple-bind, Triple-attempt, weaken,
}
use event_driven_platform.ExecutionLog.{
  InProgressExecutionLogEntry, FailExecutionResult, FailedAttemptStatus,
}
use event_driven_platform.Transaction.{ExecutionTransactionOutcome}
use event_driven_platform.Runner.Errors.{Error}
use event_driven_platform.Runner.Environment.{Dependencies, State, Run, Call, fail_answered}
use event_driven_platform.Runner.Attempt.{
  get_lease_reference, fail_request, assert_failed, failure_work, record_execution_failure,
}
use event_driven_platform.Runner.Protocol.{
  Held, held_of, next, failed, leased, working, marking, At, AtLeased, On,
}
use event_driven_platform.Runner.Protocol.Primitives.{logged-At, now-On}
use event_driven_platform.Runner.Protocol.Transact.{Inside, WorkPost, Returned, transact}
use event_driven_platform.Runner.Protocol.Completion.{h, inside}

-- whether the failure was recorded says whether it is committed
abbrev pub Recorded : {Number : Type 0} → Held → Bool → List (Call Number) → Type 0
Recorded h true t = At failed t
Recorded h false t = AtLeased h t

-- a held lease, whether or not the handler has been invoked
pub from_leased :
    {W Number A : Type 0} (h : Held) {m : Run W Number A} {Q : A → State W Number → Type 0}
    {R : Error → State W Number → Type 0}
    → ((b : Bool) → Triple (On (At (leased h b))) m Q R)
    → Triple (On (AtLeased h)) m Q R
from_leased h f = record { at = λ s p. (f p.1.0).at s (p.0, p.1.1) }

module _ {W Number : Type 0} (d : Dependencies W Number) (entry : InProgressExecutionLogEntry) where
  assert_failed-Triple :
      (b : Bool) (e : Error) (status : FailedAttemptStatus) (t : ℕ) (x : FailExecutionResult)
      → let q = fail_request entry (get_lease_reference entry) e status t in
        Triple {S = State W Number}
          (On (At (next {Number = Number} (working (held_of entry) b) (fail_answered q (ok x)))))
          (assert_failed d entry.base.execution_id x)
          (λ _. On (At (marking (held_of entry))))
          (λ _. On (At (working (held_of entry) b)))
  unfolding assert_failed
  assert_failed-Triple b e status t (FailExecutionResult.failed x) = Triple-pure tt (λ s p. p)
  assert_failed-Triple b e status t (FailExecutionResult.rejected x) = Triple-throw _ (λ s p. p)

  failure_work-Triple :
      (b : Bool) (e : Error) (status : FailedAttemptStatus)
      → Triple
          (On (At (working (held_of entry) b)))
          (failure_work d entry (get_lease_reference entry) e status)
          (λ o. On (WorkPost (held_of entry) (λ _. failed) (λ _. Unit) (λ _. ⊥) o))
          (λ _. On (Inside (held_of entry)))
  unfolding failure_work get_lease_reference
  failure_work-Triple b e status =
      Triple-bind (λ _. On (At (working (held_of entry) b)))
        (now-On d (At (working (held_of entry) b)) _)
        (λ t.
          let q = fail_request entry (get_lease_reference entry) e status t in
          Triple-bind
            (λ x.
              On (At (next {Number = Number} (working (held_of entry) b) (fail_answered q (ok x)))))
            (inside d entry b (
              logged-At (working (held_of entry) b) (d.fail q) (fail_answered q)
                (λ _. (refl, refl, refl))))
            (λ x.
              Triple-bind (λ _. On (At (marking (held_of entry))))
                (inside d entry b (assert_failed-Triple b e status t x))
                (λ _.
                  Triple-pure (ExecutionTransactionOutcome.commit tt)
                    (λ s p. (tt, (p.0, rw p.1 tt, rw p.1 refl, rw p.1 refl))))))

  settle_failure :
      (a : Unit {0}) (t : List (Call Number))
      → Returned (held_of entry) (λ _. failed) (λ _. Unit) (λ _. ⊥) a t
      → At failed t
  settle_failure a t (inl q) = q.1
  settle_failure a t (inr q) = absurd q.0

  pub record_execution_failure-Triple :
      (e : Error) (status : FailedAttemptStatus) (R : Error → State W Number → Type 0)
      → Triple
          (On (AtLeased (held_of entry)))
          (record_execution_failure d entry (get_lease_reference entry) e status)
          (λ recorded. On (Recorded (held_of entry) recorded))
          R
  unfolding record_execution_failure
  record_execution_failure-Triple e status R = from_leased (held_of entry) (λ b.
      Triple-attempt (λ _. On (At failed)) (λ _. On (AtLeased (held_of entry)))
        (weaken
          (transact d (held_of entry) (λ _. failed) (λ _. Unit) (λ _. ⊥) b _
            (failure_work-Triple b e status))
          (λ s p. p) (λ a s p. settle_failure a s.trace p) (λ x s p. p))
        (λ _. Triple-pure true (λ s p. p)) (λ _. Triple-pure false (λ s p. p)))
