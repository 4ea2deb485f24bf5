-- ===== src/Transaction/Examples.antt =====
-- A staging store under a scoped transaction: tests, and the witness of its law.
use event_driven_platform.Prelude.{◌≡◌, refl, Option, none, ℕ, List, [], ◌∷◌}
use event_driven_platform.Effects.{ok, Exec}
use event_driven_platform.Transaction.{
  ExecutionTransactionOutcome, commit, rollback, Adapter, execute,
}
use event_driven_platform.Transaction.Laws.{scoped_specification, execute-eq-scoped_specification}

abbrev Store : Type 0
Store = record { durable : List ℕ; staged : List ℕ; slot : Option ℕ }

abbrev staging : Adapter Store ℕ
staging = record {
  open_transaction = λ s. (ok 7, record { durable = s.durable; staged = s.durable; slot = s.slot });
  commit_transaction =
      λ t s. (ok tt, record { durable = s.staged; staged = s.staged; slot = s.slot });
  roll_back_transaction = λ t s. record { durable = s.durable; staged = s.durable; slot = s.slot };
  get_store = λ s. s.slot;
  set_store = λ o s. record { durable = s.durable; staged = s.staged; slot = o };
  not_active = 1;
  already_active = 2;
}

abbrev empty : Store
empty = record { durable = []; staged = []; slot = none }

abbrev put : ℕ → Exec Store ℕ (ExecutionTransactionOutcome ℕ)
put n s = (ok (commit n), record { durable = s.durable; staged = n ∷ s.staged; slot = s.slot })

abbrev put_and_undo : ℕ → Exec Store ℕ (ExecutionTransactionOutcome ℕ)
put_and_undo n s =
    (ok (rollback n), record { durable = s.durable; staged = n ∷ s.staged; slot = s.slot })

committed : (execute staging (put 3) empty).1.durable ≡ 3 ∷ []
unfolding execute
committed = refl

undone : (execute staging (put_and_undo 3) empty).1.durable ≡ []
unfolding execute
undone = refl

execute-eq-scoped_specification_example :
    execute staging (put_and_undo 3) empty ≡ scoped_specification staging (put_and_undo 3) empty
execute-eq-scoped_specification_example =
    execute-eq-scoped_specification staging (put_and_undo 3) empty
