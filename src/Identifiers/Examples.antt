-- ===== src/Identifiers/Examples.antt =====
-- The keys of an event and of an attempt, with an encoding that moves the codes from the ampersand on up
-- by one; the witnesses of the theorems about keys.
use event_driven_platform.Prelude.{
  ℕ, ◌+◌, ltb, Text, text, [], ◌∷◌, if◌then◌else◌, ◌≡◌, ◌≢◌, refl, sym, ap, ◌∙◌, subst, arith,
}
use event_driven_platform.Effects.{Result, ok}
use event_driven_platform.Effects.Results.{value_or}
use event_driven_platform.Execution.{Thrown}
use event_driven_platform.Outbox.{EventIdDescriptor}
use event_driven_platform.Identifiers.{
  ExecutionAttemptIdDescriptor, build_event_id_key, build_execution_attempt_id_key,
}
use event_driven_platform.Identifiers.Distinct.{
  AmpersandFree, UriLaws, build_execution_attempt_id_key-injective, build_event_id_key-injective,
}

abbrev moved : ℕ → ℕ
moved c = if ltb c 38 then c else c + 1

abbrev moved_text : Text → Text
moved_text [] = []
moved_text (c ∷ t) = moved c ∷ moved_text t

abbrev encode : Text → Result Thrown Text
encode t = ok (moved_text t)

moved-injective : (c d : ℕ) → moved c ≡ moved d → c ≡ d
moved-injective c d e = ground (arith, e)

moved_not_ampersand : (c : ℕ) → moved c ≢ 38
moved_not_ampersand c e = ground (arith, e)

abbrev head_of : Text → ℕ
head_of [] = 0
head_of (c ∷ t) = c

abbrev tail_of : Text → Text
tail_of [] = []
tail_of (c ∷ t) = t

moved_text-injective : (a b : Text) → moved_text a ≡ moved_text b → a ≡ b
moved_text-injective [] [] e = refl
moved_text-injective [] (d ∷ b) e = absurd cc
moved_text-injective (c ∷ a) [] e = absurd cc
moved_text-injective (c ∷ a) (d ∷ b) e =
    rw (moved-injective c d (ap head_of e), moved_text-injective a b (ap tail_of e)) refl

moved_text-AmpersandFree : (t : Text) → AmpersandFree (moved_text t)
moved_text-AmpersandFree [] = tt
moved_text-AmpersandFree (c ∷ t) = (moved_not_ampersand c, moved_text-AmpersandFree t)

encode_laws : UriLaws encode
encode_laws = record {
  injective = λ a b x e e'. moved_text-injective a b (ap (value_or []) (e ∙ sym e'));
  ampersand_free = λ a x e. subst AmpersandFree (ap (value_or []) e) (moved_text-AmpersandFree a);
}

abbrev attempt : ExecutionAttemptIdDescriptor
attempt = record { execution_id = text "e&1"; attempt_number = 2 }

abbrev wallet_created : EventIdDescriptor
wallet_created = record {
  intent_id = text "i-1";
  event_index = 12;
  event_name = text "wallet.created";
  schema_version = 1;
}

build_execution_attempt_id_key-injective_example : attempt ≡ attempt
unfolding build_execution_attempt_id_key
build_execution_attempt_id_key-injective_example =
    build_execution_attempt_id_key-injective encode encode_laws attempt attempt
      (value_or [] (build_execution_attempt_id_key encode attempt)) refl refl

build_event_id_key-injective_example : wallet_created ≡ wallet_created
unfolding build_event_id_key
build_event_id_key-injective_example =
    build_event_id_key-injective encode encode_laws wallet_created wallet_created
      (value_or [] (build_event_id_key encode wallet_created)) refl refl
