-- ===== src/Prelude/Texts.antt =====
-- Texts as lists of code points, and the decimal text of a number.
use Prim.Native.Nat.{ℕ, zero, suc, ◌+◌, ◌-◌, ◌*◌, ◌/◌, ◌%◌, ◌≤◌, ◌<◌}
use mathlib.Core.Path.{◌≡◌, refl, sym, ap, ◌∙◌}
use mathlib.Core.Logic.{inl, inr}
use mathlib.Core.Bool.{false}
use native.Mathlib.Omega.{arith}
use Prim.Native.Char.{code}
use Prim.Native.String.{String}
use mathlib.Core.List.{List, [], ◌∷◌, ◌++◌}
use event_driven_platform.Prelude.Tests.{ltb, ltb→lt, ◌==◌, Bool-cases, if◌then◌else◌}

abbrev pub Text : Type 0
Text = List ℕ

codes : String → Text
codes String.[] = []
codes (String.◌∷◌ c s) = code c ∷ codes s

-- a text literal
unfoldable pub text : String → Text
unfolding codes
text s = codes s

-- `${n}`, by fuel: a number has fewer digits than itself plus one
digits : ℕ → ℕ → Text
digits zero n = []
digits (suc f) n =
    let rest = digits f (n / 10) in if ltb n 10 then (n + 48) ∷ [] else rest ++ (n % 10 + 48) ∷ []

unfoldable pub decimal : ℕ → Text
unfolding digits
decimal n = digits (suc n) n

-- a template literal: its parts, joined
abbrev pub concat : List Text → Text
concat [] = []
concat (t ∷ ts) = t ++ concat ts

-- the number that the digits before a `]` write, after `acc`
abbrev read_digits : ℕ → Text → ℕ
read_digits acc [] = acc
read_digits acc (c ∷ t) =
    let rest = read_digits (acc * 10 + (c - 48)) t in if c == 93 then acc else rest

digit_read :
    (a n : ℕ) (t : Text) → n < 10 → read_digits a ((n + 48) ∷ t) ≡ read_digits (a * 10 + n) t
digit_read a n t h =
    let e : (n + 48 == 93) ≡ false = ground arith in
    let d : n + 48 - 48 ≡ n = omega arith in rw (e, d) refl

append_assoc : (a b c : Text) → (a ++ b) ++ c ≡ a ++ (b ++ c)
append_assoc [] b c = refl
append_assoc (x ∷ a) b c = ap (λ t. x ∷ t) (append_assoc a b c)

digits_read : (f n : ℕ) (t : Text) → n < f → read_digits 0 (digits f n ++ t) ≡ read_digits n t
unfolding digits
digits_read zero n t h = omega arith
digits_read (suc f) n t h = elim (Bool-cases (ltb n 10)) [
  | inl e ↦
      let z : 0 * 10 + n ≡ n = omega arith in
      rw e (digit_read 0 n t (ltb→lt n 10 e) ∙ ap (λ m. read_digits m t) z)
  | inr e ↦
      let d : n / 10 * 10 + n % 10 ≡ n = omega arith in
      let big : 10 ≤ n = ground (arith, e) in
      rw
        (
          e,
          append_assoc (digits f (n / 10)) ((n % 10 + 48) ∷ []) t,
          digits_read f (n / 10) ((n % 10 + 48) ∷ t) (omega arith),
          digit_read (n / 10) (n % 10) t (omega arith),
          d,
        )
        refl
]

-- a number can be read back before a `]`
pub decimal-injective : (m n : ℕ) (t : Text) → decimal m ++ 93 ∷ t ≡ decimal n ++ 93 ∷ t → m ≡ n
unfolding decimal
decimal-injective m n t e =
    sym (digits_read (suc m) m (93 ∷ t) (omega arith))
    ∙ ap (read_digits 0) e
    ∙ digits_read (suc n) n (93 ∷ t) (omega arith)

-- every code is at least `k`
abbrev pub AllFrom : ℕ → Text → Type 0
AllFrom k [] = Unit
AllFrom k (c ∷ t) = (k ≤ c) × AllFrom k t

append-AllFrom : (k : ℕ) (a b : Text) → AllFrom k a → AllFrom k b → AllFrom k (a ++ b)
append-AllFrom k [] b f g = g
append-AllFrom k (c ∷ a) b f g = (f.0, append-AllFrom k a b f.1 g)

digits-AllFrom : (f n : ℕ) → AllFrom 48 (digits f n)
unfolding digits
digits-AllFrom zero n = tt
digits-AllFrom (suc f) n = elim (Bool-cases (ltb n 10)) [
  | inl e ↦ rw e (omega arith, tt)
  | inr e ↦ rw e (
      append-AllFrom 48 (digits f (n / 10)) ((n % 10 + 48) ∷ []) (digits-AllFrom f (n / 10))
        (omega arith, tt))
]

pub decimal-AllFrom : (n : ℕ) → AllFrom 48 (decimal n)
unfolding decimal
decimal-AllFrom n = digits-AllFrom (suc n) n
