-- ===== src/Effects/Hoare.antt =====
-- Conditions before and after a method, on its return and on its throw, with a rule for each way to
-- build a method.
use event_driven_platform.Prelude.{Bool, true, false, if◌then◌else◌, ◌≡◌, refl}
use event_driven_platform.Effects.{
  Result, ok, err, Exec, pure, throw, continue, ◌>>=◌, settle, attempt,
}

-- `Q` after a return, `R` after a throw
abbrev pub Post {ℓ} :
    {S E A : Type ℓ} → (A → S → Type ℓ) → (E → S → Type ℓ) → Result E A → S → Type ℓ
Post Q R (ok a) s = Q a s
Post Q R (err e) s = R e s

pub record Triple {ℓ} {S E A : Type ℓ} (P : S → Type ℓ) (m : Exec S E A) (Q : A → S → Type ℓ)
    (R : E → S → Type ℓ) : Type ℓ where
  pub at : (s : S) → P s → Post Q R (m s).0 (m s).1

module _ {ℓ} {S E A : Type ℓ} {P : S → Type ℓ} {Q : A → S → Type ℓ} {R : E → S → Type ℓ} where
  pub Triple-pure : (a : A) → ((s : S) → P s → Q a s) → Triple P (pure a) Q R
  Triple-pure a h = record { at = h }

  pub Triple-throw : (e : E) → ((s : S) → P s → R e s) → Triple P (throw e) Q R
  Triple-throw e h = record { at = h }

module _ {ℓ} {S E A : Type ℓ} {P : S → Type ℓ} {m n : Exec S E A} {Q : A → S → Type ℓ}
    {R : E → S → Type ℓ} where
  pub Triple-if :
      (b : Bool)
      → (b ≡ true → Triple P m Q R)
      → (b ≡ false → Triple P n Q R)
      → Triple P (if b then m else n) Q R
  Triple-if true h k = h refl
  Triple-if false h k = k refl

module _ {ℓ} {S E A : Type ℓ} (Q Q' : A → S → Type ℓ) (R R' : E → S → Type ℓ) where
  Post-mono :
      (r : Result E A) (s : S)
      → ((a : A) → Q a s → Q' a s)
      → ((e : E) → R e s → R' e s)
      → Post Q R r s
      → Post Q' R' r s
  Post-mono (ok a) s q r h = q a h
  Post-mono (err e) s q r h = r e h

module _ {ℓ} {S E A : Type ℓ} where
  -- the rule of consequence
  pub weaken :
      {P P' : S → Type ℓ} {m : Exec S E A} {Q Q' : A → S → Type ℓ} {R R' : E → S → Type ℓ}
      → Triple P m Q R
      → ((s : S) → P' s → P s)
      → ((a : A) (s : S) → Q a s → Q' a s)
      → ((e : E) (s : S) → R e s → R' e s)
      → Triple P' m Q' R'
  weaken {m} {Q} {Q'} {R} {R'} t p q r = record {
    at = λ s h.
        Post-mono Q Q' R R' (m s).0 (m s).1 (λ a. q a (m s).1) (λ e. r e (m s).1) (t.at s (p s h));
  }

module _ {ℓ} {S E A B : Type ℓ} (Q : A → S → Type ℓ) (Q' : B → S → Type ℓ)
    (R : E → S → Type ℓ) where
  continue-Post :
      (r : Result E A) (f : A → Exec S E B) (s : S)
      → Post Q R r s
      → ((a : A) → Triple (Q a) (f a) Q' R)
      → Post Q' R (continue r f s).0 (continue r f s).1
  continue-Post (ok a) f s h k = (k a).at s h
  continue-Post (err e) f s h k = h

module _ {ℓ} {S E F A B : Type ℓ} (Q : A → S → Type ℓ) (R : E → S → Type ℓ) (Q' : B → S → Type ℓ)
    (R' : F → S → Type ℓ) where
  settle-Post :
      (r : Result E A) (k : A → Exec S F B) (h : E → Exec S F B) (s : S)
      → Post Q R r s
      → ((a : A) → Triple (Q a) (k a) Q' R')
      → ((e : E) → Triple (R e) (h e) Q' R')
      → Post Q' R' (settle r k h s).0 (settle r k h s).1
  settle-Post (ok a) k h s p onward caught = (onward a).at s p
  settle-Post (err e) k h s p onward caught = (caught e).at s p

module _ {ℓ} {S E A B : Type ℓ} where
  pub Triple-bind :
      {P : S → Type ℓ} {m : Exec S E A} {f : A → Exec S E B} (Q : A → S → Type ℓ)
      {Q' : B → S → Type ℓ} {R : E → S → Type ℓ}
      → Triple P m Q R
      → ((a : A) → Triple (Q a) (f a) Q' R)
      → Triple P (m >>= f) Q' R
  Triple-bind {m} {f} Q {Q'} {R} t k = record {
    at = λ s h. continue-Post Q Q' R (m s).0 f (m s).1 (t.at s h) k;
  }

module _ {ℓ} {S E F A B : Type ℓ} where
  pub Triple-attempt :
      {P : S → Type ℓ} {m : Exec S E A} {k : A → Exec S F B} {h : E → Exec S F B}
      (Q : A → S → Type ℓ) (R : E → S → Type ℓ) {Q' : B → S → Type ℓ} {R' : F → S → Type ℓ}
      → Triple P m Q R
      → ((a : A) → Triple (Q a) (k a) Q' R')
      → ((e : E) → Triple (R e) (h e) Q' R')
      → Triple P (attempt m k h) Q' R'
  Triple-attempt {m} {k} {h} Q R {Q'} {R'} t onward caught = record {
    at = λ s p. settle-Post Q R Q' R' (m s).0 k h (m s).1 (t.at s p) onward caught;
  }

module _ {ℓ} {S E A : Type ℓ} (F : Type ℓ) (Q : A → S → Type ℓ) (R : E → S → Type ℓ) where
  Post-frame : (r : Result E A) (s : S) → F → Post Q R r s → Post (λ a s. F × Q a s) R r s
  Post-frame (ok a) s f h = (f, h)
  Post-frame (err e) s f h = h

module _ {ℓ} {S E A : Type ℓ} where
  -- a fact about no state stays a fact
  pub Triple-frame :
      {P : S → Type ℓ} {m : Exec S E A} (F : Type ℓ) {Q : A → S → Type ℓ} {R : E → S → Type ℓ}
      → Triple P m Q R
      → Triple (λ s. F × P s) m (λ a s. F × Q a s) R
  Triple-frame {m} F {Q} {R} t = record {
    at = λ s p. Post-frame F Q R (m s).0 (m s).1 p.0 (t.at s p.1);
  }
