-- ===== src/Transaction.antt =====
-- packages/execution-transaction, transaction-adapter, transaction-scope(-node) and
-- scoped-execution-transaction: a unit of work that commits, rolls back on request, or rolls back
-- because it threw. Transaction resources are numbered.
pub mod Laws
mod Examples
use event_driven_platform.Prelude.{ℕ, Bool, true, false, Option, none, some}
use event_driven_platform.Effects.{Result, ok, err, Exec, pure, throw, lift, ◌>>=◌, attempt}

pub data ExecutionTransactionOutcome (A : Type 0) : Type 0 where
  commit : A → ExecutionTransactionOutcome A
  rollback : A → ExecutionTransactionOutcome A

unfoldable pub is_commit_execution_transaction_outcome :
    {A : Type 0} → ExecutionTransactionOutcome A → Bool
is_commit_execution_transaction_outcome (commit a) = true
is_commit_execution_transaction_outcome (rollback a) = false

unfoldable pub is_rollback_execution_transaction_outcome :
    {A : Type 0} → ExecutionTransactionOutcome A → Bool
is_rollback_execution_transaction_outcome (commit a) = false
is_rollback_execution_transaction_outcome (rollback a) = true

-- What may be thrown inside a transaction: the rollback signal with its result, or an error.
pub data Signal (E A : Type 0) : Type 0 where
  rollback_signal : A → Signal E A
  error : E → Signal E A

-- The persistence library's transaction, and the slot of AsyncLocalStorage.
pub record Adapter (S E : Type 0) : Type 0 where
  pub open_transaction : Exec S E ℕ
  pub commit_transaction : ℕ → Exec S E (Unit {0})
  pub roll_back_transaction : ℕ → S → S
  pub get_store : S → Option ℕ
  pub set_store : Option ℕ → S → S
  -- TransactionNotActiveError and TransactionScopeAlreadyActiveError
  pub not_active : E
  pub already_active : E

-- a method that throws only errors, where the rollback signal may be thrown too
abbrev pub raise : {S E A B : Type 0} → Exec S E A → Exec S (Signal E B) A
raise m = attempt m pure (λ e. throw (error e))

module _ {S E : Type 0} (adapter : Adapter S E) where
  -- TransactionAdapter.execute: a resolved callback commits, a thrown error rolls back and is
  -- rethrown
  unfoldable pub adapter_execute :
      {A B : Type 0} → (ℕ → Exec S (Signal E B) A) → Exec S (Signal E B) A
  adapter_execute work = do
    transaction ← raise adapter.open_transaction
    attempt (work transaction) (λ a. raise (adapter.commit_transaction transaction) >>= λ _. pure a)
        (λ e s. (err e, adapter.roll_back_transaction transaction s))

  -- the getter `transaction` of AsyncLocalTransactionScope
  unfoldable pub transaction : Exec S E ℕ
  transaction s = elim (adapter.get_store s) [
    | none ↦ (err adapter.not_active, s)
    | some t ↦ (ok t, s)
  ]

  -- AsyncLocalStorage.run: the slot holds the value while the work runs
  abbrev storage_run : {X A : Type 0} → ℕ → Exec S X A → Exec S X A
  storage_run t work s =
      let (r, s') = work (adapter.set_store (some t) s) in
      (r, adapter.set_store (adapter.get_store s) s')

  unfoldable pub scope_run : {A B : Type 0} → ℕ → Exec S (Signal E B) A → Exec S (Signal E B) A
  scope_run t work s = elim (adapter.get_store s) [
    | none ↦ storage_run t work s
    | some _ ↦ (err (error adapter.already_active), s)
  ]

  unfoldable pub return_or_signal :
      {A : Type 0} → ExecutionTransactionOutcome A → Exec S (Signal E A) A
  return_or_signal (commit a) = pure a
  return_or_signal (rollback a) = throw (rollback_signal a)

  unfoldable pub catch_signal : {A : Type 0} → Signal E A → Exec S E A
  catch_signal (rollback_signal a) = pure a
  catch_signal (error e) = throw e

  -- ScopedExecutionTransaction.execute
  unfoldable pub execute : {A : Type 0} → Exec S E (ExecutionTransactionOutcome A) → Exec S E A
  unfolding adapter_execute scope_run return_or_signal catch_signal
  execute work =
      attempt (adapter_execute (λ t. scope_run t (raise work >>= return_or_signal))) pure
        catch_signal
