-- ===== src/Retry/Examples.antt =====
-- The delay over numbers with NaN and Infinity, with a maximum and jitter.
use event_driven_platform.Prelude.{
  ℕ, suc, zero, ◌*◌, ◌/◌, ◌≤◌, ◌<◌, ◌≡◌, refl, true, false, some, ltb, arith, if◌then◌else◌,
}
use event_driven_platform.Command.{exponential}
use event_driven_platform.JavaScript.Numbers.{
  Extended, nan, infinite, thousandths, is_nan, is_finite, less, maximum, minimum, times, power, Le,
}
use event_driven_platform.Retry.{Numbers, calculate_retry_delay}
use event_driven_platform.Retry.Bounds.{NumberLaws, calculate_retry_delay_bounds}

abbrev scaled : Numbers Extended
scaled = record {
  zero = thousandths 0;
  two = thousandths 2000;
  is_nan = is_nan;
  is_finite = is_finite;
  is_positive = λ n. less (thousandths 0) n;
  maximum = maximum;
  minimum = minimum;
  times = times;
  power = power;
}

abbrev Fraction : Extended → Type 0
Fraction (thousandths f) = f < 1000
Fraction _ = ⊥

maximum_bound : (a b : ℕ) → a ≤ b → (if ltb 0 a then a else 0) ≤ b
maximum_bound a b h = ground arith

minimum_bound : (a b : ℕ) → (if ltb a b then a else b) ≤ b
minimum_bound a b = ground arith

fraction_bound : (f a b : ℕ) → f < 1000 → a ≤ b → f * a / 1000 ≤ b
fraction_bound f a b f_lt h = let m : f * a ≤ 1000 * a = grind arith in omega arith

zero-le-maximum : (a : Extended) → is_nan a ≡ false → Le (thousandths 0) (maximum (thousandths 0) a)
zero-le-maximum nan e = absurd cc
zero-le-maximum infinite e = tt
zero-le-maximum (thousandths a) e = omega arith

maximum-le :
    (a b : Extended)
    → is_nan a ≡ false
    → Le (thousandths 0) b
    → Le a b
    → Le (maximum (thousandths 0) a) b
maximum-le nan b e z h = absurd cc
maximum-le infinite nan e z h = absurd z
maximum-le infinite infinite e z h = tt
maximum-le infinite (thousandths b) e z h = absurd h
maximum-le (thousandths a) nan e z h = absurd z
maximum-le (thousandths a) infinite e z h = tt
maximum-le (thousandths a) (thousandths b) e z h = maximum_bound a b h

minimum-le : (a b : Extended) → is_nan (minimum a b) ≡ false → Le (minimum a b) b
minimum-le nan b e = absurd cc
minimum-le infinite nan e = absurd cc
minimum-le infinite infinite e = tt
minimum-le infinite (thousandths b) e = omega arith
minimum-le (thousandths a) nan e = absurd cc
minimum-le (thousandths a) infinite e = tt
minimum-le (thousandths a) (thousandths b) e = minimum_bound a b

finite-maximum : (a : Extended) → is_finite a ≡ true → is_finite (maximum (thousandths 0) a) ≡ true
finite-maximum nan e = absurd cc
finite-maximum infinite e = absurd cc
finite-maximum (thousandths a) e = refl

product_bound :
    (f a b : Extended)
    → Fraction f
    → is_finite a ≡ true
    → Le a b
    → Le (thousandths 0) (times f a) × Le (times f a) b
product_bound nan a b h t l = absurd h
product_bound infinite a b h t l = absurd h
product_bound (thousandths zero) (thousandths a) nan h t l = absurd l
product_bound (thousandths (suc f)) (thousandths a) nan h t l = absurd l
product_bound (thousandths zero) nan b h t l = absurd cc
product_bound (thousandths (suc f)) nan b h t l = absurd cc
product_bound (thousandths zero) infinite b h t l = absurd cc
product_bound (thousandths (suc f)) infinite b h t l = absurd cc
product_bound (thousandths zero) (thousandths a) infinite h t l = (omega arith, tt)
product_bound (thousandths (suc f)) (thousandths a) infinite h t l = (omega arith, tt)
product_bound (thousandths zero) (thousandths a) (thousandths b) h t l =
    (omega arith, fraction_bound 0 a b h l)
product_bound (thousandths (suc f)) (thousandths a) (thousandths b) h t l =
    (omega arith, fraction_bound (suc f) a b h l)

le_refl : (a : Extended) → is_finite a ≡ true → Le a a
le_refl nan e = absurd cc
le_refl infinite e = absurd cc
le_refl (thousandths a) e = omega arith

scaled_laws : NumberLaws scaled
scaled_laws = record {
  Le = Le;
  IsFraction = Fraction;
  zero_le_zero = omega arith;
  zero-le-maximum = zero-le-maximum;
  maximum-le = maximum-le;
  minimum-le = minimum-le;
  finite_zero = refl;
  finite-maximum = finite-maximum;
  zero-le-times = λ f a h t z. (product_bound f a a h t (le_refl a t)).0;
  times-le = λ f a b h t z l. (product_bound f a b h t l).1;
}

-- half of the second delay, 200 doubled once and cut to 300
half_delay :
    (calculate_retry_delay scaled
      (λ w. (thousandths 500, w))
      (some (
        exponential
          (thousandths 200000)
          (thousandths 2000)
          (some (thousandths 300000))
          (some true)))
      2
      tt).0
    ≡ thousandths 150000
unfolding calculate_retry_delay
half_delay = refl

-- a delay without an end is not multiplied by the fraction, which may be 0
infinite_delay :
    (calculate_retry_delay scaled
      (λ w. (thousandths 0, w))
      (some (exponential infinite (thousandths 2000) (some infinite) (some true)))
      2
      tt).0
    ≡ infinite
unfolding calculate_retry_delay
infinite_delay = refl

calculate_retry_delay_bounds_example :
    let delay =
      (calculate_retry_delay scaled
        (λ w. (thousandths 0, w))
        (some (exponential infinite (thousandths 2000) (some infinite) (some true)))
        2
        tt).0 in
    scaled_laws.Le (thousandths 0) delay × scaled_laws.Le delay infinite
unfolding scaled_laws
calculate_retry_delay_bounds_example =
    calculate_retry_delay_bounds scaled scaled_laws (λ w. (thousandths 0, w)) infinite
      (thousandths 2000) infinite (some true) 2 tt (omega arith) tt
