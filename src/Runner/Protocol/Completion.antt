-- ===== src/Runner/Protocol/Completion.antt =====
-- The work of a handler attempt keeps the protocol: the handler, the completion and the outbox.
use event_driven_platform.Prelude.{
  ◌≡◌, refl, Bool, true, false, inl, inr, List, Option, none, some, ℕ, Bool-cases, if◌then◌else◌,
}
use event_driven_platform.Effects.{ok, pure, ◌>>=◌}
use event_driven_platform.Effects.Hoare.{Triple, Triple-pure, Triple-throw, Triple-bind, weaken}
use event_driven_platform.Domain.{
  Operation, OperationResult, is_rolled_back_operation_rejection, events,
}
use event_driven_platform.ExecutionLog.{InProgressExecutionLogEntry, CompleteExecutionResult}
use event_driven_platform.Command.{Command}
use event_driven_platform.Outbox.{OutboxRecord}
use event_driven_platform.Transaction.{ExecutionTransactionOutcome}
use event_driven_platform.Runner.Environment.{
  Dependencies, State, Run, Call, Handler, TimeoutResult, timed_out, handler_invoked,
  complete_answered, append_answered, logged,
}
use event_driven_platform.Runner.Policies.{option}
use event_driven_platform.Runner.Attempt.{
  get_lease_reference, complete_request, timed_result, execute_handler_for,
  execute_handler_with_timeout, assert_completed, complete_entry, publish_result, attempt_work,
  rolled_back_work,
}
use event_driven_platform.Runner.Protocol.{
  Held, held_of, next, working, stored, published, done, At, On,
}
use event_driven_platform.Runner.Protocol.Primitives.{logged-At, silent-On, now-On}
use event_driven_platform.Runner.Protocol.Transact.{Inside, WorkPost}

abbrev pub IsRolledBack : OperationResult → Type 0
IsRolledBack r = is_rolled_back_operation_rejection r ≡ true

abbrev pub IsKept : OperationResult → Type 0
IsKept r = is_rolled_back_operation_rejection r ≡ false

module _ {W Number : Type 0} (d : Dependencies W Number) where
  timed_result-Triple :
      (K : List (Call Number) → Type 0) (ms : ℕ) (x : TimeoutResult OperationResult)
      → Triple (On K) (timed_result d ms x) (λ _. On K) (λ _. On K)
  unfolding timed_result
  timed_result-Triple K ms (TimeoutResult.completed r) = Triple-pure r (λ s h. h)
  timed_result-Triple K ms timed_out = Triple-throw _ (λ s h. h)

  handler-Triple :
      (h : Held) (timeout : Option ℕ) (op : Operation) (handler : Handler W)
      → Triple
          (On (At (working h false)))
          (execute_handler_for d timeout op handler)
          (λ _. On (At (working h true)))
          (λ _. On (At (working h true)))
  unfolding execute_handler_for
  handler-Triple h none op handler =
      logged-At (working h false) (handler op) (λ _. handler_invoked op) (λ _. tt)
  handler-Triple h (some ms) op handler =
      Triple-bind (λ _. On (At (working h true)))
        (logged-At (working h false) (d.execution_timeout (handler op) ms) (λ _. handler_invoked op)
          (λ _. tt))
        (timed_result-Triple (At (working h true)) ms)

  module _ (entry : InProgressExecutionLogEntry) where
    abbrev pub h : Held
    h = held_of entry

    assert_completed-Triple :
        (r : OperationResult) (t : ℕ) (x : CompleteExecutionResult)
        → let q = complete_request entry (get_lease_reference entry) r t in
          Triple
            (On (At (next {Number = Number} (working h true) (complete_answered q (ok x)))))
            (assert_completed d entry.base.execution_id x)
            (λ _. On (At (stored h r)))
            (λ _. On (At (working h true)))
    unfolding assert_completed
    assert_completed-Triple r t (CompleteExecutionResult.completed e) = Triple-pure tt (λ s p. p)
    assert_completed-Triple r t (CompleteExecutionResult.rejected x) = Triple-throw _ (λ s p. p)

    complete_entry-Triple :
        (r : OperationResult)
        → Triple
            (On (At (working h true)))
            (complete_entry d entry (get_lease_reference entry) r)
            (λ _. On (At (stored h r)))
            (λ _. On (At (working h true)))
    unfolding complete_entry get_lease_reference
    complete_entry-Triple r =
        Triple-bind (λ _. On (At (working h true))) (now-On d (At (working h true)) _)
          (λ t.
            let q = complete_request entry (get_lease_reference entry) r t in
            Triple-bind
              (λ x. On (At (next {Number = Number} (working h true) (complete_answered q (ok x)))))
              (logged-At (working h true) (d.complete q) (complete_answered q)
                (λ _. (refl, refl, refl)))
              (assert_completed-Triple r t))

    stored-Inside : (r : OperationResult) (t : List (Call Number)) → At (stored h r) t → Inside h t
    stored-Inside r t p = (p.0, rw p.1 refl)

    working-Inside : (b : Bool) (t : List (Call Number)) → At (working h b) t → Inside h t
    working-Inside b t p = (p.0, rw p.1 refl)

    -- a throw inside the transaction
    pub inside :
        {A : Type 0} {P : State W Number → Type 0} {m : Run W Number A}
        {Q : A → State W Number → Type 0} (b : Bool)
        → Triple P m Q (λ _. On (At (working h b)))
        → Triple P m Q (λ _. On (Inside h))
    inside b t = weaken t (λ s p. p) (λ a s q. q) (λ e s p. working-Inside b s.trace p)

    append-Triple :
        (r : OperationResult) (records : List OutboxRecord)
        → IsKept r
        → Triple {S = State W Number}
            (On (At (stored h r)))
            (logged (d.append records) (append_answered records) >>= λ _.
              pure (ExecutionTransactionOutcome.commit r))
            (λ o. On (WorkPost h done IsKept IsRolledBack o))
            (λ _. On (Inside h))
    append-Triple r records kept =
        Triple-bind (λ _. On (At (published h r)))
          (weaken (logged-At (stored h r) (d.append records) (append_answered records) (λ _. kept))
            (λ s p. p) (λ a s p. p) (λ e s p. stored-Inside r s.trace p))
          (λ _.
            Triple-pure (ExecutionTransactionOutcome.commit r)
              (λ s p. (kept, (p.0, rw p.1 tt, rw p.1 refl, rw p.1 refl))))

    publish_result-Triple :
        (command : Command Number) (r : OperationResult)
        → IsKept r
        → Triple
            (On (At (working h true)))
            (publish_result d command entry (get_lease_reference entry) r)
            (λ o. On (WorkPost h done IsKept IsRolledBack o))
            (λ _. On (Inside h))
    unfolding publish_result
    publish_result-Triple command r kept =
        Triple-bind (λ _. On (At (working h true)))
          (inside true (
            silent-On (At (working h true))
              (d.create_envelopes command.operation command.correlation_id (events r))))
          (λ envelopes.
            Triple-bind (λ _. On (At (working h true)))
              (inside true (silent-On (At (working h true)) (d.create_records envelopes)))
              (λ records.
                Triple-bind (λ _. On (At (stored h r))) (inside true (complete_entry-Triple r))
                  (λ _. append-Triple r records kept)))

    publish_or_roll_back-Triple :
        (command : Command Number) (r : OperationResult)
        → Triple
            (On (At (working h true)))
            (if is_rolled_back_operation_rejection r
              then pure (ExecutionTransactionOutcome.rollback r)
              else publish_result d command entry (get_lease_reference entry) r)
            (λ o. On (WorkPost h done IsKept IsRolledBack o))
            (λ _. On (Inside h))
    publish_or_roll_back-Triple command r =
        elim (Bool-cases (is_rolled_back_operation_rejection r)) [
          | inl rolled ↦
              rw rolled (Triple-pure (ExecutionTransactionOutcome.rollback r) (λ s p. (rolled, p)))
          | inr kept ↦ rw kept (publish_result-Triple command r kept)
        ]

    pub attempt_work-Triple :
        (command : Command Number) (handler : Handler W)
        → Triple
            (On (At (working h false)))
            (attempt_work d command handler entry (get_lease_reference entry))
            (λ o. On (WorkPost h done IsKept IsRolledBack o))
            (λ _. On (Inside h))
    unfolding attempt_work execute_handler_with_timeout
    attempt_work-Triple command handler =
        Triple-bind (λ _. On (At (working h true)))
          (inside true (
            handler-Triple h (option (λ o. o.timeout_ms) command.options) command.operation
              handler))
          (publish_or_roll_back-Triple command)

    pub rolled_back_work-Triple :
        (r : OperationResult)
        → IsRolledBack r
        → Triple
            (On (At (working h true)))
            (rolled_back_work d entry (get_lease_reference entry) r)
            (λ o. On (WorkPost h (λ _. done r) (λ _. Unit) (λ _. ⊥) o))
            (λ _. On (Inside h))
    unfolding rolled_back_work
    rolled_back_work-Triple r rolled =
        Triple-bind (λ _. On (At (stored h r))) (inside true (complete_entry-Triple r))
          (λ _.
            Triple-pure (ExecutionTransactionOutcome.commit tt)
              (λ s p. (tt, (p.0, rw p.1 rolled, rw p.1 refl, rw p.1 refl))))
