-- ===== src/Effects/Results.antt =====
-- Results in a row: the first that is an error is the error of all.
use event_driven_platform.Prelude.{◌≡◌, refl}
use event_driven_platform.Effects.{Result, ok, err}

module _ {E A B : Type 0} where
  -- what may throw, and then what follows
  abbrev pub and_then : Result E A → (A → Result E B) → Result E B
  and_then (ok a) f = f a
  and_then (err e) f = err e

  pub and_then-ok :
      (r : Result E A) (f : A → Result E B) (y : B)
      → and_then r f ≡ ok y
      → (x : A) × (r ≡ ok x) × (f x ≡ ok y)
  and_then-ok (ok x) f y e = (x, refl, e)
  and_then-ok (err t) f y e = absurd cc

abbrev pub value_or : {E A : Type 0} → A → Result E A → A
value_or a (ok x) = x
value_or a (err t) = a
