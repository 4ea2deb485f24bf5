-- ===== src/JavaScript/Quoting.antt =====
-- `JSON.stringify` keeps different arrays of strings apart.
use event_driven_platform.Prelude.{
  ℕ, ◌+◌, ◌-◌, ◌*◌, ◌/◌, ◌%◌, ◌<◌, Bool, true, false, ltb, leb, ◌==◌, ==_iff, if◌then◌else◌, ◌||◌,
  ◌&&◌, ◌≡◌, refl, sym, ap, ◌∙◌, subst, List, [], ◌∷◌, ◌++◌, Text, text, arith,
}
use event_driven_platform.JavaScript.{
  hex, unicode_escape, escape_code_point, escape_text, json_string, json_tail, stringify,
}

abbrev unhex : ℕ → ℕ
unhex d = if ltb d 58 then d - 48 else d - 87

abbrev four : Text → ℕ
four (a ∷ b ∷ c ∷ d ∷ t) = unhex a * 4096 + unhex b * 256 + unhex c * 16 + unhex d
four _ = 0

abbrev after_four : Text → Text
after_four (a ∷ b ∷ c ∷ d ∷ t) = t
after_four _ = []

abbrev escaped : Text → ℕ
escaped [] = 0
escaped (y ∷ t) =
    if y == 117
    then four t
    else if y == 98
    then 8
    else if y == 116
    then 9
    else if y == 110
    then 10
    else if y == 102
    then 12
    else if y == 114
    then 13
    else y

abbrev after_escaped : Text → Text
after_escaped [] = []
after_escaped (y ∷ t) = if y == 117 then after_four t else t

-- the first code point that a quoted text stands for, and the quoted text after it
abbrev first : Text → ℕ
first [] = 0
first (x ∷ t) = if x == 92 then escaped t else x

abbrev rest : Text → Text
rest [] = []
rest (x ∷ t) = if x == 92 then after_escaped t else t

unhex-hex : (n : ℕ) → n < 16 → unhex (hex n) ≡ n
unhex-hex n h = ground arith

four-unicode_escape :
    (c : ℕ) (t : Text)
    → c < 65536
    → four (hex (c / 4096) ∷ hex (c / 256 % 16) ∷ hex (c / 16 % 16) ∷ hex (c % 16) ∷ t) ≡ c
four-unicode_escape c t h =
    let a = unhex-hex (c / 4096) (omega arith) in
    let b = unhex-hex (c / 256 % 16) (omega arith) in
    let d = unhex-hex (c / 16 % 16) (omega arith) in
    let e = unhex-hex (c % 16) (omega arith) in rw (a, b, d, e) (omega arith)

if-both :
    (P : Text → Type 0) (b : Bool) (x y : Text)
    → (b ≡ true → P x)
    → (b ≡ false → P y)
    → P (if b then x else y)
if-both P true x y f g = f refl
if-both P false x y f g = g refl

abbrev head_of : Text → ℕ
head_of [] = 0
head_of (x ∷ t) = x

-- a quoted code point before a text is read back, and does not begin with a quotation mark
abbrev Reads : ℕ → Text → Text → Type 0
Reads c t u = (first (u ++ t) ≡ c) × (rest (u ++ t) ≡ t) × ((head_of (u ++ t) == 34) ≡ false)

quote-Reads : (c : ℕ) (t : Text) → (c == 34 || c == 92) ≡ true → Reads c t (92 ∷ c ∷ [])
quote-Reads c t h = (ground arith, ground arith, ground arith)

plain-Reads : (c : ℕ) (t : Text) → (c == 34 || c == 92) ≡ false → Reads c t (c ∷ [])
plain-Reads c t h = (ground arith, ground arith, ground arith)

letter-Reads :
    (c d : ℕ) (t : Text)
    → (c == d) ≡ true
    → (letter : ℕ) → Reads d t (92 ∷ letter ∷ [])
    → Reads c t (92 ∷ letter ∷ [])
letter-Reads c d t h letter r = subst (λ x. Reads x t (92 ∷ letter ∷ [])) (sym ((==_iff c d).0 h)) r

unicode-Reads :
    (c : ℕ) (t : Text)
    → (ltb c 32 || (leb 55296 c && leb c 57343)) ≡ true
    → Reads c t (unicode_escape c)
unicode-Reads c t h = (four-unicode_escape c t (ground arith), refl, refl)

escape_code_point-Reads : (c : ℕ) (t : Text) → Reads c t (escape_code_point c)
unfolding escape_code_point
escape_code_point-Reads c t =
    let P : Text → Type 0 = Reads c t in
    if-both P _ _ _ (quote-Reads c t) (λ plain.
      if-both P _ _ _ (λ h. letter-Reads c 8 t h 98 (refl, refl, refl))
        (λ _.
          if-both P _ _ _ (λ h. letter-Reads c 9 t h 116 (refl, refl, refl))
            (λ _.
              if-both P _ _ _ (λ h. letter-Reads c 10 t h 110 (refl, refl, refl))
                (λ _.
                  if-both P _ _ _ (λ h. letter-Reads c 12 t h 102 (refl, refl, refl))
                    (λ _.
                      if-both P _ _ _ (λ h. letter-Reads c 13 t h 114 (refl, refl, refl))
                        (λ _. if-both P _ _ _ (unicode-Reads c t) (λ _. plain-Reads c t plain)))))))

abbrev tail_of : Text → Text
tail_of [] = []
tail_of (x ∷ t) = t

absurd_mark {ℓ} : {A : Type ℓ} (n : ℕ) → 34 ≡ n → (n == 34) ≡ false → A
absurd_mark n e h = ground arith

append_assoc : (a b c : Text) → (a ++ b) ++ c ≡ a ++ (b ++ c)
append_assoc [] b c = refl
append_assoc (x ∷ a) b c = ap (λ t. x ∷ t) (append_assoc a b c)

-- what stands before the first quotation mark is the text
escape_text-injective :
    (s s' r r' : Text) → escape_text s ++ 34 ∷ r ≡ escape_text s' ++ 34 ∷ r' → (s ≡ s') × (r ≡ r')
unfolding escape_text
escape_text-injective [] [] r r' e = (refl, ap tail_of e)
escape_text-injective [] (c ∷ s) r r' e =
    let h = (escape_code_point-Reads c (escape_text s ++ 34 ∷ r')).2 in
    let start : 34 ≡ head_of (escape_code_point c ++ (escape_text s ++ 34 ∷ r')) =
      ap head_of (e ∙ append_assoc (escape_code_point c) (escape_text s) (34 ∷ r')) in
    absurd_mark _ start h
escape_text-injective (c ∷ s) [] r r' e =
    let h = (escape_code_point-Reads c (escape_text s ++ 34 ∷ r)).2 in
    let start : 34 ≡ head_of (escape_code_point c ++ (escape_text s ++ 34 ∷ r)) =
      ap head_of (sym e ∙ append_assoc (escape_code_point c) (escape_text s) (34 ∷ r)) in
    absurd_mark _ start h
escape_text-injective (c ∷ s) (c' ∷ s') r r' e =
    let u = escape_text s ++ 34 ∷ r in
    let u' = escape_text s' ++ 34 ∷ r' in
    let joined : escape_code_point c ++ u ≡ escape_code_point c' ++ u' =
      sym (append_assoc (escape_code_point c) (escape_text s) (34 ∷ r))
      ∙ e
      ∙ append_assoc (escape_code_point c') (escape_text s') (34 ∷ r') in
    let reads = escape_code_point-Reads c u in
    let reads' = escape_code_point-Reads c' u' in
    let same_code : c ≡ c' = sym reads.0 ∙ ap first joined ∙ reads'.0 in
    let same_rest : u ≡ u' = sym reads.1 ∙ ap rest joined ∙ reads'.1 in
    let ih = escape_text-injective s s' r r' same_rest in (rw (same_code, ih.0) refl, ih.1)

pub json_string-injective :
    (s s' r r' : Text) → json_string s ++ r ≡ json_string s' ++ r' → (s ≡ s') × (r ≡ r')
unfolding json_string
json_string-injective s s' r r' e = escape_text-injective s s' r r' (
    sym (append_assoc (escape_text s) (34 ∷ []) r)
    ∙ ap tail_of e
    ∙ append_assoc (escape_text s') (34 ∷ []) r')

json_tail-injective : (a b : List Text) → json_tail a ≡ json_tail b → a ≡ b
unfolding json_tail
json_tail-injective [] [] e = refl
json_tail-injective [] (t ∷ b) e = ground (arith, e)
json_tail-injective (t ∷ a) [] e = ground (arith, e)
json_tail-injective (t ∷ a) (u ∷ b) e =
    let both = json_string-injective t u (json_tail a) (json_tail b) (ap tail_of e) in
    rw (both.0, json_tail-injective a b both.1) refl

-- Different arrays of strings have different JSON texts.
pub stringify-injective : (a b : List Text) → stringify a ≡ stringify b → a ≡ b
unfolding stringify text
stringify-injective [] [] e = refl
stringify-injective [] (t ∷ b) e =
    let second : 93 ≡ 34 = ap (λ u. head_of (tail_of u)) e in ground (arith, second)
stringify-injective (t ∷ a) [] e =
    let second : 34 ≡ 93 = ap (λ u. head_of (tail_of u)) e in ground (arith, second)
stringify-injective (t ∷ a) (u ∷ b) e =
    let both = json_string-injective t u (json_tail a) (json_tail b) (ap tail_of e) in
    rw (both.0, json_tail-injective a b both.1) refl
