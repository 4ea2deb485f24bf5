-- ===== src/ReadCacheRedis/Keys.antt =====
-- The names of keys in Redis tell the keys apart.
use event_driven_platform.Prelude.{ℕ, Text, List, [], ◌∷◌, ◌++◌, ◌≡◌, ◌≢◌, refl, sym, ap, ◌∙◌}
use event_driven_platform.Effects.{Result, ok}
use event_driven_platform.Effects.Results.{and_then-ok, value_or}
use event_driven_platform.Execution.{Thrown}
use event_driven_platform.ReadCacheRedis.{encode_each, colon_parts}

abbrev pub ColonFree : Text → Type 0
ColonFree [] = Unit
ColonFree (c ∷ t) = (c ≢ 58) × ColonFree t

abbrev pub AllColonFree : List Text → Type 0
AllColonFree [] = Unit
AllColonFree (t ∷ ts) = ColonFree t × AllColonFree ts

-- what `encodeURIComponent` does: it tells texts apart, and encodes colons
pub record UriLaws (encode_uri_component : Text → Result Thrown Text) : Type 0 where
  pub injective :
      (a b x : Text) → encode_uri_component a ≡ ok x → encode_uri_component b ≡ ok x → a ≡ b
  pub colon_free : (a x : Text) → encode_uri_component a ≡ ok x → ColonFree x

abbrev head_of : List ℕ → ℕ
head_of [] = 0
head_of (c ∷ t) = c

abbrev pub first_part : List Text → Text
first_part [] = []
first_part (t ∷ ts) = t

pub nil_not_cons : {A : Type 0} {a : A} {t : List A} → ◌≡◌ {A = List A} [] (a ∷ t) → ⊥
nil_not_cons e = cc

abbrev pub tail_of : {A : Type 0} → List A → List A
tail_of [] = []
tail_of (c ∷ t) = t

-- a part ends at the next colon
part-injective :
    (x y : Text) (xs ys : List Text)
    → ColonFree x
    → ColonFree y
    → x ++ colon_parts xs ≡ y ++ colon_parts ys
    → (x ≡ y) × (colon_parts xs ≡ colon_parts ys)
unfolding colon_parts
part-injective [] [] xs ys f g e = (refl, e)
part-injective [] (c ∷ y) [] ys f g e = absurd cc
part-injective [] (c ∷ y) (x ∷ xs) ys f g e = absurd (g.0 (sym (ap head_of e)))
part-injective (c ∷ x) [] xs [] f g e = absurd cc
part-injective (c ∷ x) [] xs (y ∷ ys) f g e = absurd (f.0 (ap head_of e))
part-injective (c ∷ x) (d ∷ y) xs ys f g e =
    let ih = part-injective x y xs ys f.1 g.1 (ap tail_of e) in
    let same_code : c ≡ d = ap head_of e in (rw (same_code, ih.0) refl, ih.1)

pub colon_parts-injective :
    (xs ys : List Text)
    → AllColonFree xs
    → AllColonFree ys
    → colon_parts xs ≡ colon_parts ys
    → xs ≡ ys
unfolding colon_parts
colon_parts-injective [] [] f g e = refl
colon_parts-injective [] (y ∷ ys) f g e = absurd cc
colon_parts-injective (x ∷ xs) [] f g e = absurd cc
colon_parts-injective (x ∷ xs) (y ∷ ys) f g e =
    let parts = part-injective x y xs ys f.0 g.0 (ap tail_of e) in
    rw (parts.0, colon_parts-injective xs ys f.1 g.1 parts.1) refl

pub append-injective : (p a b : Text) → p ++ a ≡ p ++ b → a ≡ b
append-injective [] a b e = e
append-injective (x ∷ p) a b e = append-injective p a b (ap tail_of e)

module _ (encode_uri_component : Text → Result Thrown Text)
    (laws : UriLaws encode_uri_component) where
  pub encode_each-AllColonFree :
      (ts xs : List Text) → encode_each encode_uri_component ts ≡ ok xs → AllColonFree xs
  unfolding encode_each
  encode_each-AllColonFree [] xs e = rw (sym (ap (value_or []) e)) tt
  encode_each-AllColonFree (t ∷ ts) xs e =
      let (x, p, e1) = and_then-ok (encode_uri_component t) _ xs e in
      let (rest, q, e2) = and_then-ok (encode_each encode_uri_component ts) _ xs e1 in
      rw (sym (ap (value_or []) e2)) (laws.colon_free t x p, encode_each-AllColonFree ts rest q)

  pub encode_each-injective :
      (ts us xs : List Text)
      → encode_each encode_uri_component ts ≡ ok xs
      → encode_each encode_uri_component us ≡ ok xs
      → ts ≡ us
  unfolding encode_each
  encode_each-injective [] [] xs e e' = refl
  encode_each-injective [] (u ∷ us) xs e e' =
      let (x, p, e1) = and_then-ok (encode_uri_component u) _ xs e' in
      let (rest, q, e2) = and_then-ok (encode_each encode_uri_component us) _ xs e1 in
      absurd (nil_not_cons (ap (value_or []) (e ∙ sym e2)))
  encode_each-injective (t ∷ ts) [] xs e e' =
      let (x, p, e1) = and_then-ok (encode_uri_component t) _ xs e in
      let (rest, q, e2) = and_then-ok (encode_each encode_uri_component ts) _ xs e1 in
      absurd (nil_not_cons (ap (value_or []) (e' ∙ sym e2)))
  encode_each-injective (t ∷ ts) (u ∷ us) xs e e' =
      let (x, p, e1) = and_then-ok (encode_uri_component t) _ xs e in
      let (rest, q, e2) = and_then-ok (encode_each encode_uri_component ts) _ xs e1 in
      let (x', p', e1') = and_then-ok (encode_uri_component u) _ xs e' in
      let (rest', q', e2') = and_then-ok (encode_each encode_uri_component us) _ xs e1' in
      let same_list : x ∷ rest ≡ x' ∷ rest' = ap (value_or []) (e2 ∙ sym e2') in
      let same_first : x ≡ x' = ap first_part same_list in
      let same_rest : rest ≡ rest' = ap tail_of same_list in
      rw
        (
          laws.injective t u x p (p' ∙ ap ok (sym same_first)),
          encode_each-injective ts us rest q (q' ∙ ap ok (sym same_rest)),
        )
        refl
