-- ===== src/JavaScript/Numbers.antt =====
-- Some of JavaScript's numbers, to try the definitions on that take their arithmetic as a parameter:
-- the non-negative thousandths, with NaN and Infinity.
use event_driven_platform.Prelude.{
  ℕ, zero, suc, ◌+◌, ◌-◌, ◌*◌, ◌/◌, ◌%◌, ◌==◌, ◌≤◌, Bool, true, false, ltb, if◌then◌else◌,
}

pub data Extended : Type 0 where
  nan infinite : Extended
  thousandths : ℕ → Extended

abbrev pub is_nan : Extended → Bool
is_nan nan = true
is_nan infinite = false
is_nan (thousandths a) = false

-- `Number.isFinite`
abbrev pub is_finite : Extended → Bool
is_finite nan = false
is_finite infinite = false
is_finite (thousandths a) = true

-- `Number.isInteger`
abbrev pub is_integer : Extended → Bool
is_integer nan = false
is_integer infinite = false
is_integer (thousandths a) = a % 1000 == 0

abbrev pub less : Extended → Extended → Bool
less (thousandths a) (thousandths b) = ltb a b
less (thousandths a) infinite = true
less _ _ = false

abbrev pub equal : Extended → Extended → Bool
equal (thousandths a) (thousandths b) = a == b
equal infinite infinite = true
equal _ _ = false

abbrev pub maximum : Extended → Extended → Extended
maximum nan b = nan
maximum a nan = nan
maximum infinite b = infinite
maximum a infinite = infinite
maximum (thousandths a) (thousandths b) = thousandths (if ltb a b then b else a)

abbrev pub minimum : Extended → Extended → Extended
minimum nan b = nan
minimum a nan = nan
minimum infinite b = b
minimum a infinite = a
minimum (thousandths a) (thousandths b) = thousandths (if ltb a b then a else b)

abbrev pub plus : Extended → Extended → Extended
plus nan b = nan
plus a nan = nan
plus infinite b = infinite
plus a infinite = infinite
plus (thousandths a) (thousandths b) = thousandths (a + b)

-- a difference that would be negative is 0
abbrev pub minus : Extended → Extended → Extended
minus nan b = nan
minus a nan = nan
minus infinite infinite = nan
minus infinite b = infinite
minus a infinite = thousandths 0
minus (thousandths a) (thousandths b) = thousandths (a - b)

-- `0 * Infinity` is NaN
abbrev pub times : Extended → Extended → Extended
times nan b = nan
times a nan = nan
times infinite infinite = infinite
times infinite (thousandths zero) = nan
times infinite (thousandths (suc b)) = infinite
times (thousandths zero) infinite = nan
times (thousandths (suc a)) infinite = infinite
times (thousandths a) (thousandths b) = thousandths (a * b / 1000)

abbrev pub power : Extended → ℕ → Extended
power a zero = thousandths 1000
power a (suc k) = times a (power a k)

-- `Math.round`
abbrev pub round : Extended → Extended
round nan = nan
round infinite = infinite
round (thousandths a) = thousandths ((a + 500) / 1000 * 1000)

abbrev pub Le : Extended → Extended → Type 0
Le (thousandths a) (thousandths b) = a ≤ b
Le (thousandths a) infinite = Unit
Le infinite infinite = Unit
Le _ _ = ⊥
