-- ===== src/Identifiers.antt =====
-- The keys that identifiers are hashed from: build-event-id-key.ts of packages/event and
-- build-execution-attempt-id-key.ts of packages/execution. `encodeURIComponent` is a parameter.
use event_driven_platform.Prelude.{
  ℕ, zero, suc, Text, text, decimal, List, [], ◌∷◌, ◌++◌, ◌≡◌, ◌≢◌, refl, sym, ap, ◌∙◌, arith,
}
use event_driven_platform.Effects.{Result, ok, err}
use event_driven_platform.Effects.Results.{and_then, and_then-ok, value_or}
use event_driven_platform.Execution.{Thrown}
use event_driven_platform.Outbox.{EventIdDescriptor}
pub mod Distinct
mod Examples

pub record ExecutionAttemptIdDescriptor : Type 0 where
  pub execution_id : Text
  pub attempt_number : ℕ

-- `parts.join('&')`
unfoldable pub join_parts : List Text → Text
join_parts [] = []
join_parts (part ∷ []) = part
join_parts (part ∷ next ∷ parts) = part ++ 38 ∷ join_parts (next ∷ parts)

module _ (encode_uri_component : Text → Result Thrown Text) where
  unfoldable pub build_event_id_key : EventIdDescriptor → Result Thrown Text
  unfolding join_parts
  build_event_id_key d = and_then (encode_uri_component d.intent_id) (λ intent_id.
      and_then (encode_uri_component d.event_name) (λ event_name. ok (
        join_parts (
          (text "intentId=" ++ intent_id)
          ∷ (text "eventIndex=" ++ decimal d.event_index)
          ∷ (text "eventName=" ++ event_name)
          ∷ (text "schemaVersion=" ++ decimal d.schema_version)
          ∷ []))))

  unfoldable pub build_execution_attempt_id_key : ExecutionAttemptIdDescriptor → Result Thrown Text
  unfolding join_parts
  build_execution_attempt_id_key d = and_then (encode_uri_component d.execution_id) (λ execution_id.
      ok (
        join_parts (
          (text "executionId=" ++ execution_id)
          ∷ (text "attemptNumber=" ++ decimal d.attempt_number)
          ∷ [])))
