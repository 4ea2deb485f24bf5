-- ===== src/Identifiers/Distinct.antt =====
-- Different descriptors have different keys.
use event_driven_platform.Prelude.{
  ℕ, Text, text, decimal, decimal-injective, AllFrom, decimal-AllFrom, [], ◌∷◌, ◌++◌, ◌≡◌, ◌≢◌,
  refl, sym, ap, ◌∙◌, arith,
}
use event_driven_platform.Effects.{Result, ok}
use event_driven_platform.Effects.Results.{and_then, and_then-ok, value_or}
use event_driven_platform.Execution.{Thrown}
use event_driven_platform.Outbox.{EventIdDescriptor}
use event_driven_platform.Identifiers.{
  ExecutionAttemptIdDescriptor, join_parts, build_event_id_key, build_execution_attempt_id_key,
}

abbrev pub AmpersandFree : Text → Type 0
AmpersandFree [] = Unit
AmpersandFree (c ∷ t) = (c ≢ 38) × AmpersandFree t

-- what `encodeURIComponent` does: it tells texts apart, and encodes ampersands
pub record UriLaws (encode_uri_component : Text → Result Thrown Text) : Type 0 where
  pub injective :
      (a b x : Text) → encode_uri_component a ≡ ok x → encode_uri_component b ≡ ok x → a ≡ b
  pub ampersand_free : (a x : Text) → encode_uri_component a ≡ ok x → AmpersandFree x

abbrev head_of : Text → ℕ
head_of [] = 0
head_of (c ∷ t) = c

abbrev tail_of : Text → Text
tail_of [] = []
tail_of (c ∷ t) = t

-- a part ends at the next ampersand
part-injective :
    (x y s t : Text)
    → AmpersandFree x
    → AmpersandFree y
    → x ++ 38 ∷ s ≡ y ++ 38 ∷ t
    → (x ≡ y) × (s ≡ t)
part-injective [] [] s t f g e = (refl, ap tail_of e)
part-injective [] (c ∷ y) s t f g e = absurd (g.0 (sym (ap head_of e)))
part-injective (c ∷ x) [] s t f g e = absurd (f.0 (ap head_of e))
part-injective (c ∷ x) (d ∷ y) s t f g e =
    let ih = part-injective x y s t f.1 g.1 (ap tail_of e) in
    let same_code : c ≡ d = ap head_of e in (rw (same_code, ih.0) refl, ih.1)

append-injective : (p a b : Text) → p ++ a ≡ p ++ b → a ≡ b
append-injective [] a b e = e
append-injective (x ∷ p) a b e = append-injective p a b (ap tail_of e)

append_assoc : (a b c : Text) → (a ++ b) ++ c ≡ a ++ (b ++ c)
append_assoc [] b c = refl
append_assoc (x ∷ a) b c = ap (λ t. x ∷ t) (append_assoc a b c)

-- a part `name=value` before an ampersand
named_part-injective :
    (name x y s t : Text)
    → AmpersandFree x
    → AmpersandFree y
    → (name ++ x) ++ 38 ∷ s ≡ (name ++ y) ++ 38 ∷ t
    → (x ≡ y) × (s ≡ t)
named_part-injective name x y s t f g e = part-injective x y s t f g (
    append-injective name _ _
      (sym (append_assoc name x (38 ∷ s)) ∙ e ∙ append_assoc name y (38 ∷ t)))

AllFrom-AmpersandFree : (t : Text) → AllFrom 48 t → AmpersandFree t
AllFrom-AmpersandFree [] h = tt
AllFrom-AmpersandFree (c ∷ t) h = (λ e. let le = h.0 in omega arith, AllFrom-AmpersandFree t h.1)

decimal-AmpersandFree : (n : ℕ) → AmpersandFree (decimal n)
decimal-AmpersandFree n = AllFrom-AmpersandFree (decimal n) (decimal-AllFrom n)

-- the last part
last_number-injective : (name : Text) (m n : ℕ) → name ++ decimal m ≡ name ++ decimal n → m ≡ n
last_number-injective name m n e =
    decimal-injective m n [] (ap (λ t. t ++ 93 ∷ []) (append-injective name _ _ e))

module _ (encode_uri_component : Text → Result Thrown Text)
    (laws : UriLaws encode_uri_component) where
  -- If `encodeURIComponent` tells texts apart and encodes ampersands, different attempts have different
  -- keys.
  pub build_execution_attempt_id_key-injective :
      (a b : ExecutionAttemptIdDescriptor) (x : Text)
      → build_execution_attempt_id_key encode_uri_component a ≡ ok x
      → build_execution_attempt_id_key encode_uri_component b ≡ ok x
      → a ≡ b
  unfolding build_execution_attempt_id_key join_parts
  build_execution_attempt_id_key-injective a b x e e' =
      let key : ℕ → Text → Result Thrown Text =
        λ n id. ok ((text "executionId=" ++ id) ++ 38 ∷ (text "attemptNumber=" ++ decimal n)) in
      let (i, p, e1) =
        and_then-ok (encode_uri_component a.execution_id) (key a.attempt_number) x e in
      let (j, q, e2) =
        and_then-ok (encode_uri_component b.execution_id) (key b.attempt_number) x e' in
      let parts =
        named_part-injective (text "executionId=") i j _ _ (laws.ampersand_free a.execution_id i p)
          (laws.ampersand_free b.execution_id j q) (ap (value_or []) (e1 ∙ sym e2)) in
      let same_number =
        last_number-injective (text "attemptNumber=") a.attempt_number b.attempt_number parts.1 in
      let same_execution =
        laws.injective a.execution_id b.execution_id i p (q ∙ ap ok (sym parts.0)) in
      rw (same_number, same_execution) refl

  -- If `encodeURIComponent` tells texts apart and encodes ampersands, events that differ in their intent,
  -- their position, their name or their version have different keys.
  pub build_event_id_key-injective :
      (a b : EventIdDescriptor) (x : Text)
      → build_event_id_key encode_uri_component a ≡ ok x
      → build_event_id_key encode_uri_component b ≡ ok x
      → a ≡ b
  unfolding build_event_id_key join_parts
  build_event_id_key-injective a b x e e' =
      let key : EventIdDescriptor → Text → Text → Result Thrown Text = λ d id name. ok (
        (text "intentId=" ++ id)
        ++ 38
          ∷ ((text "eventIndex=" ++ decimal d.event_index)
              ++ 38
                ∷ ((text "eventName=" ++ name)
                    ++ 38 ∷ (text "schemaVersion=" ++ decimal d.schema_version)))) in
      let named : EventIdDescriptor → Text → Result Thrown Text =
        λ d id. and_then (encode_uri_component d.event_name) (key d id) in
      let (i, p, e1) = and_then-ok (encode_uri_component a.intent_id) (named a) x e in
      let (n, q, e2) = and_then-ok (encode_uri_component a.event_name) (key a i) x e1 in
      let (j, r, e3) = and_then-ok (encode_uri_component b.intent_id) (named b) x e' in
      let (m, s, e4) = and_then-ok (encode_uri_component b.event_name) (key b j) x e3 in
      let first =
        named_part-injective (text "intentId=") i j _ _ (laws.ampersand_free a.intent_id i p)
          (laws.ampersand_free b.intent_id j r) (ap (value_or []) (e2 ∙ sym e4)) in
      let second =
        named_part-injective (text "eventIndex=") (decimal a.event_index) (decimal b.event_index) _
          _ (decimal-AmpersandFree a.event_index) (decimal-AmpersandFree b.event_index) first.1 in
      let third =
        named_part-injective (text "eventName=") n m _ _ (laws.ampersand_free a.event_name n q)
          (laws.ampersand_free b.event_name m s) second.1 in
      let same_intent = laws.injective a.intent_id b.intent_id i p (r ∙ ap ok (sym first.0)) in
      let same_index =
        decimal-injective a.event_index b.event_index [] (ap (λ t. t ++ 93 ∷ []) second.0) in
      let same_name = laws.injective a.event_name b.event_name n q (s ∙ ap ok (sym third.0)) in
      let same_version =
        last_number-injective (text "schemaVersion=") a.schema_version b.schema_version third.1 in
      rw (same_intent, same_index, same_name, same_version) refl
