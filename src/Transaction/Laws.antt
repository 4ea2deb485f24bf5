-- ===== src/Transaction/Laws.antt =====
-- A scoped execution transaction, whatever its work does.
use event_driven_platform.Prelude.{◌≡◌, Option, none, some, ℕ, arith}
use event_driven_platform.Effects.{Result, ok, err, Exec, pure, ◌>>=◌}
use event_driven_platform.Transaction.{
  ExecutionTransactionOutcome, commit, rollback, Adapter, execute,
}

module _ {S E A : Type 0} (a : Adapter S E) where
  -- the end of a transaction whose work came to an end
  abbrev finish : ℕ → Result E (ExecutionTransactionOutcome A) → S → Result E A × S
  finish t (ok (commit x)) s = (a.commit_transaction t >>= λ _. pure x) s
  finish t (ok (rollback x)) s = (ok x, a.roll_back_transaction t s)
  finish t (err e) s = (err e, a.roll_back_transaction t s)

  -- the work of a transaction that has been opened
  abbrev within : Exec S E (ExecutionTransactionOutcome A) → ℕ → Option ℕ → Exec S E A
  within work t none s =
      let (r, s') = work (a.set_store (some t) s) in finish t r (a.set_store none s')
  within work t (some u) s = (err a.already_active, a.roll_back_transaction t s)

  -- a transaction is opened, and the work runs in it unless another one is active
  abbrev pub scoped_specification : Exec S E (ExecutionTransactionOutcome A) → Exec S E A
  scoped_specification work = a.open_transaction >>= λ t s. within work t (a.get_store s) s

  -- Over any adapter and slot, the nested callbacks and the thrown signal of
  -- ScopedExecutionTransaction.execute come to this: a transaction is opened; if none is active the
  -- work runs with it in the slot; a commit outcome commits, a rollback outcome rolls back and returns
  -- its result, a throw rolls back and is thrown again, and a nested transaction is refused.
  pub execute-eq-scoped_specification :
      (work : Exec S E (ExecutionTransactionOutcome A)) (s : S)
      → execute a work s ≡ scoped_specification work s
  unfolding execute
  execute-eq-scoped_specification work s = ground arith
