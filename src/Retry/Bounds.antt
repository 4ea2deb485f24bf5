-- ===== src/Retry/Bounds.antt =====
-- The delay before a retry is never negative, and never above the configured maximum.
use event_driven_platform.Prelude.{
  ◌≡◌, refl, Bool, true, false, Option, some, ℕ, Bool-cases, inl, inr, if◌then◌else◌, not, ◌||◌,
}
use event_driven_platform.Command.{exponential}
use event_driven_platform.Retry.{
  Numbers, compute_delay, clamp_delay, has_jitter, calculate_retry_delay,
}

-- What the code relies on of JavaScript's numbers, `Math.max`, `Math.min` and a random fraction. A
-- product with a fraction is bounded only if the other factor is finite: `0 * Infinity` is NaN.
pub record NumberLaws {Number : Type 0} (n : Numbers Number) : Type 1 where
  pub Le : Number → Number → Type 0
  pub IsFraction : Number → Type 0
  pub zero_le_zero : Le n.zero n.zero
  pub zero-le-maximum : (a : Number) → n.is_nan a ≡ false → Le n.zero (n.maximum n.zero a)
  pub maximum-le :
      (a b : Number) → n.is_nan a ≡ false → Le n.zero b → Le a b → Le (n.maximum n.zero a) b
  pub minimum-le : (a b : Number) → n.is_nan (n.minimum a b) ≡ false → Le (n.minimum a b) b
  pub finite_zero : n.is_finite n.zero ≡ true
  pub finite-maximum : (a : Number) → n.is_finite a ≡ true → n.is_finite (n.maximum n.zero a) ≡ true
  pub zero-le-times :
      (f a : Number) → IsFraction f → n.is_finite a ≡ true → Le n.zero a → Le n.zero (n.times f a)
  pub times-le :
      (f a b : Number)
      → IsFraction f
      → n.is_finite a ≡ true
      → Le n.zero a
      → Le a b
      → Le (n.times f a) b

module _ {Number : Type 0} (n : Numbers Number) (laws : NumberLaws n) where
  open laws use {Le, IsFraction}

  zero-le-clamp : (a : Number) → Le n.zero (clamp_delay n a)
  unfolding clamp_delay
  zero-le-clamp a = elim (Bool-cases (n.is_nan a)) [
    | inl e ↦ rw e laws.zero_le_zero
    | inr e ↦ rw e (laws.zero-le-maximum a e)
  ]

  clamp-le : (a b : Number) → Le n.zero b → (n.is_nan a ≡ false → Le a b) → Le (clamp_delay n a) b
  unfolding clamp_delay
  clamp-le a b z h = elim (Bool-cases (n.is_nan a)) [
    | inl e ↦ rw e z
    | inr e ↦ rw e (laws.maximum-le a b e z (h e))
  ]

  clamp-finite : (a : Number) → n.is_finite a ≡ true → n.is_finite (clamp_delay n a) ≡ true
  unfolding clamp_delay
  clamp-finite a h = elim (Bool-cases (n.is_nan a)) [
    | inl e ↦ rw e laws.finite_zero
    | inr e ↦ rw e (laws.finite-maximum a h)
  ]

  compute_delay-le :
      (initial multiplier most : Number) (jitter : Option Bool) (k : ℕ)
      → let delay = compute_delay n (exponential initial multiplier (some most) jitter) k in
        n.is_nan delay ≡ false → Le delay most
  unfolding compute_delay
  compute_delay-le initial multiplier most jitter k e = laws.minimum-le _ most e

  -- a delay with or without jitter lies between 0 and a bound on the clamped delay; only a finite delay
  -- is multiplied by the fraction
  jitter_bounds :
      {W : Type 0} (jitter finite : Bool) (f a most : Number)
      → IsFraction f
      → (finite ≡ true → n.is_finite a ≡ true)
      → Le n.zero a
      → Le a most
      → (v w : W)
      → let r : Number × W = if not jitter || not finite then (a, v) else (n.times f a, w) in
        Le n.zero r.0 × Le r.0 most
  jitter_bounds false finite f a most h t z m v w = (z, m)
  jitter_bounds true false f a most h t z m v w = (z, m)
  jitter_bounds true true f a most h t z m v w =
      (laws.zero-le-times f a h (t refl) z, laws.times-le f a most h (t refl) z m)

  -- With an exponential strategy that has a non-negative maximum, the delay before any retry lies
  -- between 0 and the maximum, with or without jitter, if the random source gives a fraction.
  pub calculate_retry_delay_bounds :
      {W : Type 0} (random : W → Number × W) (initial multiplier most : Number)
      (jitter : Option Bool) (k : ℕ) (w : W)
      → IsFraction (random w).0
      → Le n.zero most
      → let delay =
          (calculate_retry_delay n random
            (some (exponential initial multiplier (some most) jitter))
            k
            w).0 in
        Le n.zero delay × Le delay most
  unfolding calculate_retry_delay
  calculate_retry_delay_bounds random initial multiplier most jitter k w f z =
      let strategy = exponential initial multiplier (some most) jitter in
      let delay = compute_delay n strategy k in
      jitter_bounds (has_jitter n strategy) (n.is_finite delay) (random w).0 (clamp_delay n delay)
        most f (clamp-finite delay) (zero-le-clamp delay)
        (clamp-le delay most z (compute_delay-le initial multiplier most jitter k)) w (random w).1
