-- ===== src/Runner/Protocol/Primitives.antt =====
-- What the primitive calls do to the run.
use event_driven_platform.Prelude.{◌≡◌, refl, ap, List, ◌∷◌}
use event_driven_platform.Effects.{Result, ok, err}
use event_driven_platform.Effects.Hoare.{Post, Triple}
use event_driven_platform.Runner.Environment.{
  Dependencies, State, Method, Call, logged, silent, now, observe, Observation, observed,
}
use event_driven_platform.Runner.Errors.{Error}
use event_driven_platform.Runner.Protocol.{Phase, next, Allowed, At, On}

-- to prove `Post` of an answer that is not known
pub Post-both {ℓ} :
    {S E A : Type ℓ} (Q : A → S → Type ℓ) (R : E → S → Type ℓ) (r : Result E A) (s : S)
    → ((a : A) → r ≡ ok a → Q a s)
    → ((e : E) → r ≡ err e → R e s)
    → Post Q R r s
Post-both Q R (ok a) s q x = q a refl
Post-both Q R (err e) s q x = x e refl

module _ {Number : Type 0} where
  -- one more call, allowed where the run stands
  pub At-next :
      {p q : Phase} (t : List (Call Number)) (c : Call Number)
      → At p t
      → Allowed p c
      → next p c ≡ q
      → At q (c ∷ t)
  At-next t c h a e = ((h.0, rw h.1 a), rw h.1 e)

module _ {W Number : Type 0} where
  -- a logged call that is allowed at `p` takes the run to the phase that its answer gives
  pub logged-At :
      {A : Type 0} (p : Phase) (method : Method W A) (call : Result Error A → Call Number)
      → ((r : Result Error A) → Allowed p (call r))
      → Triple
          (On (At p))
          (logged method call)
          (λ a. On (At (next p (call (ok a)))))
          (λ e. On (At (next p (call (err e)))))
  unfolding logged
  logged-At {A} p method call allowed = record {
    at = λ s h.
        let (r, w) = method s.world in
        Post-both {S = State W Number} (λ a. On (At (next p (call (ok a)))))
          (λ e. On (At (next p (call (err e))))) r
          (record s { world = w; trace = call r ∷ s.trace })
          (λ a e. At-next s.trace (call r) h (allowed r) (ap (λ x. next p (call x)) e))
          (λ x e. At-next s.trace (call r) h (allowed r) (ap (λ x. next p (call x)) e));
  }

  -- a call that is not logged, and reading the clock, change nothing of the run
  pub silent-On :
      {A : Type 0} (K : List (Call Number) → Type 0) (method : Method W A)
      → Triple (On K) (silent method) (λ _. On K) (λ _. On K)
  unfolding silent
  silent-On K method = record {
    at = λ s h.
        let (r, w) = method s.world in
        Post-both {S = State W Number} (λ _. On K) (λ _. On K) r (record s { world = w }) (λ a e. h)
          (λ x e. h);
  }

module _ {W Number : Type 0} (d : Dependencies W Number) where
  pub now-On :
      (K : List (Call Number) → Type 0) (R : Error → State W Number → Type 0)
      → Triple (On K) (now d) (λ _. On K) R
  unfolding now
  now-On K R = record { at = λ s h. h }

  -- observations are allowed everywhere and leave the phase as it was
  pub observe-At :
      (p : Phase) (o : Observation Number) (R : Error → State W Number → Type 0)
      → Triple (On (At p)) (observe d o) (λ _. On (At p)) R
  unfolding observe
  observe-At p o R = record { at = λ s h. ((h.0, tt), h.1) }

  pub observe-On :
      (K : List (Call Number) → Type 0) (o : Observation Number)
      → ((t : List (Call Number)) → K t → K (observed o ∷ t))
      → (R : Error → State W Number → Type 0) → Triple (On K) (observe d o) (λ _. On K) R
  unfolding observe
  observe-On K o keep R = record { at = λ s h. keep s.trace h }
