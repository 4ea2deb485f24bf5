-- ===== src/Effects/Traced.antt =====
-- Methods that log the calls they make, newest first, beside the world that the calls change; and the
-- rules for conditions on the log.
use event_driven_platform.Prelude.{List, ◌∷◌, ◌≡◌, refl}
use event_driven_platform.Effects.{Result, ok, err, Exec, pure, throw, ◌>>=◌, attempt}
use event_driven_platform.Effects.Hoare.{
  Post, Triple, Triple-bind, Triple-attempt, Triple-pure, Triple-throw,
}

pub record Traced (W C : Type 0) : Type 0 where
  pub world : W
  pub calls : List C

module _ {W C E A : Type 0} where
  -- a call on the world, logged with its answer
  unfoldable pub called : Exec W E A → (Result E A → C) → Exec (Traced W C) E A
  called method call s =
      let (r, w) = method s.world in (r, record s { world = w; calls = call r ∷ s.calls })

  -- a call that always answers
  unfoldable pub answered : (W → A × W) → (A → C) → Exec (Traced W C) E A
  answered method call s =
      let (a, w) = method s.world in (ok a, record s { world = w; calls = call a ∷ s.calls })

  -- a call that always answers and is not logged
  unfoldable pub sensed : (W → A × W) → Exec (Traced W C) E A
  sensed method s = let (a, w) = method s.world in (ok a, record s { world = w })

module _ {S E A : Type 0} where
  -- `try { m } finally { f }`, where `f` does not throw
  unfoldable pub finally : Exec S E A → Exec S E (Unit {0}) → Exec S E A
  finally m f = attempt m (λ a. f >>= λ _. pure a) (λ e. f >>= λ _. throw e)

-- a condition on the log
abbrev pub On : {W C : Type 0} → (List C → Type 0) → Traced W C → Type 0
On K s = K s.calls

module _ {W C E A : Type 0} where
  Post-both :
      (Q : A → Traced W C → Type 0) (R : E → Traced W C → Type 0) (r : Result E A) (s : Traced W C)
      → ((a : A) → r ≡ ok a → Q a s)
      → ((e : E) → r ≡ err e → R e s)
      → Post Q R r s
  Post-both Q R (ok a) s q x = q a refl
  Post-both Q R (err e) s q x = x e refl

  pub called-On :
      (K : List C → Type 0) (Q : A → List C → Type 0) (R : E → List C → Type 0)
      (method : Exec W E A) (call : Result E A → C)
      → ((t : List C) (a : A) → K t → Q a (call (ok a) ∷ t))
      → ((t : List C) (e : E) → K t → R e (call (err e) ∷ t))
      → Triple {S = Traced W C} (On K) (called method call) (λ a. On (Q a)) (λ e. On (R e))
  unfolding called
  called-On K Q R method call q x = record {
    at = λ s h.
        let (r, w) = method s.world in
        Post-both (λ a. On (Q a)) (λ e. On (R e)) r
          (record s { world = w; calls = call r ∷ s.calls }) (λ a e. rw e (q s.calls a h))
          (λ y e. rw e (x s.calls y h));
  }

  pub answered-On :
      (K : List C → Type 0) (Q : A → List C → Type 0) (R : E → Traced W C → Type 0)
      (method : W → A × W) (call : A → C)
      → ((t : List C) (a : A) → K t → Q a (call a ∷ t))
      → Triple {S = Traced W C} {E = E} (On K) (answered method call) (λ a. On (Q a)) R
  unfolding answered
  answered-On K Q R method call q = record { at = λ s h. q s.calls (method s.world).0 h }

  pub sensed-On :
      (K : List C → Type 0) (R : E → Traced W C → Type 0) (method : W → A × W)
      → Triple {S = Traced W C} {E = E} (On K) (sensed method) (λ _. On K) R
  unfolding sensed
  sensed-On K R method = record { at = λ s h. h }

module _ {S E A : Type 0} where
  pub finally-Triple :
      {P : S → Type 0} {m : Exec S E A} {f : Exec S E (Unit {0})} (Q : A → S → Type 0)
      (R : E → S → Type 0) {Q' : A → S → Type 0} {R' : E → S → Type 0}
      → Triple P m Q R
      → ((a : A) → Triple (Q a) f (λ _. Q' a) R')
      → ((e : E) → Triple (R e) f (λ _. R' e) R')
      → Triple P (finally m f) Q' R'
  unfolding finally
  finally-Triple Q R {Q'} {R'} t onward caught =
      Triple-attempt Q R t (λ a. Triple-bind (λ _. Q' a) (onward a) (λ _. Triple-pure a (λ s p. p)))
        (λ e. Triple-bind (λ _. R' e) (caught e) (λ _. Triple-throw e (λ s p. p)))
