-- ===== src/Runner/Protocol/Transact.antt =====
-- A scoped transaction of the Runner, over work that keeps the protocol: it commits what the work
-- asked to commit, and otherwise leaves the lease held and no transaction open.
use event_driven_platform.Prelude.{
  ◌≡◌, refl, ap, Bool, true, ◌⊎◌, inl, inr, List, ◌∷◌, Option, none, some, ℕ,
}
use event_driven_platform.Effects.{Result, ok, err, Exec, pure, ◌>>=◌}
use event_driven_platform.Effects.Hoare.{
  Post, Triple, Triple-pure, Triple-throw, Triple-bind, Triple-attempt, Triple-frame,
}
use event_driven_platform.Transaction
use event_driven_platform.Transaction.{
  ExecutionTransactionOutcome, commit, rollback, Signal, rollback_signal, error, raise,
  adapter_execute, scope_run, return_or_signal, catch_signal,
}
use event_driven_platform.Runner.Environment.{
  Dependencies, State, Run, Call, commit_answered, begin_answered, rolled_back, logged, adapter,
}
use event_driven_platform.Runner.Errors.{Error}
use event_driven_platform.Runner.Protocol.{
  Held, Phase, idle, refused, failed, found, leased, working, stored, published, marking, done,
  after_commit, after_rollback, MayCommit, MayRollBack, IsInside, phase, Conforms, At, AtLeased, On,
}
use event_driven_platform.Runner.Protocol.Primitives.{Post-both, At-next, logged-At}

-- a rollback is allowed inside a transaction, and leaves the lease held
rollback-IsInside :
    (h : Held) (p : Phase)
    → IsInside h p
    → MayRollBack p × ((b : Bool) × (after_rollback p ≡ leased h b))
rollback-IsInside h (working k b) e = (tt, (b, ap (λ x. leased x b) e))
rollback-IsInside h (stored k r) e = (tt, (true, ap (λ x. leased x true) e))
rollback-IsInside h (published k r) e = (tt, (true, ap (λ x. leased x true) e))
rollback-IsInside h (marking k) e = (tt, (true, ap (λ x. leased x true) e))
rollback-IsInside h idle e = absurd e
rollback-IsInside h refused e = absurd e
rollback-IsInside h failed e = absurd e
rollback-IsInside h (found r) e = absurd e
rollback-IsInside h (leased k b) e = absurd e
rollback-IsInside h (done r) e = absurd e

module _ {Number : Type 0} where
  abbrev pub Inside : Held → List (Call Number) → Type 0
  Inside h t = Conforms t × IsInside h (phase t)

  -- ready to be committed, to the phase `q`
  abbrev pub Ready : Held → Phase → List (Call Number) → Type 0
  Ready h q t =
      Conforms t × MayCommit (phase t) × IsInside h (phase t) × (after_commit (phase t) ≡ q)

module _ {W Number : Type 0} where
  -- what holds of the calls does not depend on the slot
  Post-slot :
      {E A : Type 0} (Q : A → List (Call Number) → Type 0) (R : E → List (Call Number) → Type 0)
      (r : Result E A) (s : State W Number) (o : Option ℕ)
      → Post {S = State W Number} (λ a. On (Q a)) (λ e. On (R e)) r s
      → Post {S = State W Number} (λ a. On (Q a)) (λ e. On (R e)) r (record s { slot = o })
  Post-slot Q R (ok a) s o h = h
  Post-slot Q R (err e) s o h = h

module _ {W Number : Type 0} (d : Dependencies W Number) where
  scope_run-at :
      {A B : Type 0} (K : List (Call Number) → Type 0) (Q : A → List (Call Number) → Type 0)
      (R : Signal Error B → List (Call Number) → Type 0)
      (m : Exec (State W Number) (Signal Error B) A) (t : ℕ)
      → Triple (On K) m (λ a. On (Q a)) (λ e. On (R e))
      → ((c : List (Call Number)) → K c → R (error (adapter d).already_active) c)
      → (w : W) (o : Option ℕ) (c : List (Call Number)) → K c
      → let s : State W Number = record { world = w; slot = o; trace = c } in
        Post {S = State W Number}
          (λ a. On (Q a))
          (λ e. On (R e))
          (scope_run (adapter d) t m s).0
          (scope_run (adapter d) t m s).1
  unfolding scope_run adapter
  scope_run-at K Q R m t h busy w none c k =
      let s : State W Number = record { world = w; slot = some t; trace = c } in
      Post-slot Q R (m s).0 (m s).1 none (h.at s k)
  scope_run-at K Q R m t h busy w (some x) c k = busy c k

  pub scope_run-On :
      {A B : Type 0} (K : List (Call Number) → Type 0) (Q : A → List (Call Number) → Type 0)
      (R : Signal Error B → List (Call Number) → Type 0)
      (m : Exec (State W Number) (Signal Error B) A) (t : ℕ)
      → Triple (On K) m (λ a. On (Q a)) (λ e. On (R e))
      → ((c : List (Call Number)) → K c → R (error (adapter d).already_active) c)
      → Triple (On K) (scope_run (adapter d) t m) (λ a. On (Q a)) (λ e. On (R e))
  scope_run-On K Q R m t h busy = record {
    at = λ s k. scope_run-at K Q R m t h busy s.world s.slot s.trace k;
  }

module _ {Number A : Type 0} (h : Held) (target : A → Phase) (Kept Rolled : A → Type 0) where
  -- what the work leaves behind, by its outcome
  abbrev pub WorkPost : ExecutionTransactionOutcome A → List (Call Number) → Type 0
  WorkPost (commit a) t = Kept a × Ready h (target a) t
  WorkPost (rollback a) t = Rolled a × At (working h true) t

  abbrev SignalInside : Signal Error A → List (Call Number) → Type 0
  SignalInside (rollback_signal a) t = Rolled a × At (working h true) t
  SignalInside (error e) t = Inside h t

  abbrev SignalOutside : Signal Error A → List (Call Number) → Type 0
  SignalOutside (rollback_signal a) t = Rolled a × At (leased h true) t
  SignalOutside (error e) t = AtLeased h t

  -- what a transaction leaves behind when it returns
  abbrev pub Returned : A → List (Call Number) → Type 0
  Returned a t = Kept a × At (target a) t ⊎ (Rolled a × At (leased h true) t)

module _ {W Number A : Type 0} (d : Dependencies W Number) (h : Held) (target : A → Phase)
    (Kept Rolled : A → Type 0) where
  abbrev Prepared : A → List (Call Number) → Type 0
  Prepared a t = Kept a × Ready h (target a) t

  abbrev Settled : A → List (Call Number) → Type 0
  Settled a t = Kept a × At (target a) t

  outcome-Triple :
      (o : ExecutionTransactionOutcome A)
      → Triple {S = State W Number} {E = Signal Error A}
          (On (WorkPost h target Kept Rolled o))
          (return_or_signal (adapter d) o)
          (λ a. On (Prepared a))
          (λ e. On (SignalInside h target Kept Rolled e))
  unfolding return_or_signal
  outcome-Triple (commit a) = Triple-pure a (λ s p. p)
  outcome-Triple (rollback a) = Triple-throw (rollback_signal a) (λ s p. p)

  -- the work, with its outcome turned into a return or a signal
  work-Triple :
      (K : List (Call Number) → Type 0) {work : Run W Number (ExecutionTransactionOutcome A)}
      → Triple (On K) work (λ o. On (WorkPost h target Kept Rolled o)) (λ e. On (Inside h))
      → Triple {E = Signal Error A}
          (On K)
          (raise work >>= return_or_signal (adapter d))
          (λ a. On (Prepared a))
          (λ e. On (SignalInside h target Kept Rolled e))
  work-Triple K w =
      Triple-bind (λ o. On (WorkPost h target Kept Rolled o))
        (Triple-attempt (λ o. On (WorkPost h target Kept Rolled o)) (λ e. On (Inside h)) w
          (λ o. Triple-pure o (λ s p. p)) (λ e. Triple-throw (error e) (λ s p. p)))
        outcome-Triple

  undo-At : (t : List (Call Number)) → Inside h t → AtLeased h (rolled_back ∷ t)
  undo-At t (c, i) = let (may, (b, e)) = rollback-IsInside h (phase t) i in ((c, may), (b, e))

  commit_failed-At :
      (t : List (Call Number)) (q : Phase) (e : Error)
      → Ready h q t
      → AtLeased h (commit_answered (err e) ∷ t)
  commit_failed-At t q e (c, may, i, _) =
      let (_, (b, p)) = rollback-IsInside h (phase t) i in ((c, may), (b, p))

  -- the commit, in the phase that the work prepared
  commit-Ready :
      (q : Phase) (t : ℕ)
      → Triple
          (On (Ready h q))
          ((adapter d).commit_transaction t)
          (λ _. On (At q))
          (λ e. On (AtLeased h))
  unfolding adapter logged
  commit-Ready q t = record {
    at = λ s p.
        let (r, w) = d.commit_transaction t s.world in
        Post-both {S = State W Number} (λ _. On (At q)) (λ e. On (AtLeased h)) r
          (record s { world = w; trace = commit_answered r ∷ s.trace })
          (λ a e. rw e ((p.0, p.1), p.3)) (λ x e. rw e (commit_failed-At s.trace q x p));
  }

  commit-Triple :
      (a : A) (t : ℕ)
      → Triple {E = Signal Error A}
          (On (Prepared a))
          (raise ((adapter d).commit_transaction t) >>= λ _. pure a)
          (λ x. On (Settled x))
          (λ e. On (SignalOutside h target Kept Rolled e))
  commit-Triple a t =
      Triple-bind (λ _ s. Kept a × At (target a) s.trace)
        (Triple-attempt (λ _ s. Kept a × At (target a) s.trace) (λ e. On (AtLeased h))
          (Triple-frame (Kept a) (commit-Ready (target a) t)) (λ u. Triple-pure u (λ s p. p))
          (λ e. Triple-throw (error e) (λ s p. p)))
        (λ _. Triple-pure a (λ s p. p))

  undo-Triple :
      (t : ℕ) (e : Signal Error A)
      → Triple {A = A}
          (On (SignalInside h target Kept Rolled e))
          (λ s. (err e, (adapter d).roll_back_transaction t s))
          (λ x. On (Settled x))
          (λ e. On (SignalOutside h target Kept Rolled e))
  unfolding adapter
  undo-Triple t (rollback_signal a) = record {
    at = λ s p. (p.0, At-next s.trace rolled_back p.1 tt refl);
  }
  undo-Triple t (error e) = record { at = λ s p. undo-At s.trace p }

  begin-At :
      (b : Bool)
      → Triple
          (On (At (leased h b)))
          (adapter d).open_transaction
          (λ _. On (At (working h b)))
          (λ _. On (At (leased h b)))
  unfolding adapter
  begin-At b = logged-At (leased h b) d.begin_transaction begin_answered (λ _. tt)

  leased-At : (b : Bool) (t : List (Call Number)) → At (leased h b) t → AtLeased h t
  leased-At b t p = (p.0, (b, p.1))

  busy-Inside : (b : Bool) (t : List (Call Number)) → At (working h b) t → Inside h t
  busy-Inside b t p = (p.0, rw p.1 refl)

  caught-Triple :
      (e : Signal Error A)
      → Triple
          (On (SignalOutside h target Kept Rolled e))
          (catch_signal (adapter d) e)
          (λ a. On (Returned h target Kept Rolled a))
          (λ _. On (AtLeased h))
  unfolding catch_signal
  caught-Triple (rollback_signal a) = Triple-pure a (λ s p. inr p)
  caught-Triple (error e) = Triple-throw e (λ s p. p)

  -- A transaction over work that keeps the protocol keeps it.
  pub transact :
      (b : Bool) (work : Run W Number (ExecutionTransactionOutcome A))
      → Triple
          (On (At (working h b)))
          work
          (λ o. On (WorkPost h target Kept Rolled o))
          (λ e. On (Inside h))
      → Triple
          (On (At (leased h b)))
          (Transaction.execute (adapter d) work)
          (λ a. On (Returned h target Kept Rolled a))
          (λ e. On (AtLeased h))
  unfolding Transaction.execute
  transact b work w =
      Triple-attempt (λ a. On (Settled a)) (λ e. On (SignalOutside h target Kept Rolled e))
        (Triple-bind (λ _. On (At (working h b)))
          (Triple-attempt (λ _. On (At (working h b))) (λ _. On (At (leased h b))) (begin-At b)
            (λ t. Triple-pure t (λ s p. p))
            (λ e. Triple-throw (error e) (λ s p. leased-At b s.trace p)))
          (λ t.
            Triple-attempt (λ a. On (Prepared a)) (λ e. On (SignalInside h target Kept Rolled e))
              (scope_run-On d (At (working h b)) Prepared (SignalInside h target Kept Rolled) _ t
                (work-Triple (At (working h b)) w) (busy-Inside b))
              (λ a. commit-Triple a t) (undo-Triple t)))
        (λ a. Triple-pure a (λ s p. inl p)) caught-Triple
