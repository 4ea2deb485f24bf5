-- ===== src/Outbox.antt =====
-- packages/event (the envelope), packages/operation-event-envelope-factory and packages/outbox: the
-- envelopes of an operation's events and the records that hold them.
use event_driven_platform.Prelude.{ℕ, ◌+◌, Text, List, [], ◌∷◌, map}
use event_driven_platform.Effects.{Result, ok, err, Exec}
use event_driven_platform.Domain.{Reference, ActorType, ActorOrigin, Event, Operation}
use event_driven_platform.Execution.{Timestamp}
pub mod Positions
mod Examples

pub record EventActor : Type 0 where
  pub type : ActorType
  pub id : Text
  pub origin : ActorOrigin

pub record EventEnvelope : Type 0 where
  pub event_id : Text
  pub event_name : Text
  pub schema_version : ℕ
  pub occurred_at : Timestamp
  pub intent_id : Text
  pub correlation_id : Text
  pub operation_name : Text
  pub tenant : Reference
  pub actor : EventActor
  pub subject : Reference
  pub aggregate : Reference
  pub payload : Text

pub record OutboxRecord : Type 0 where
  pub id : Text
  pub envelope : EventEnvelope
  pub created_at : Timestamp

pub record EventIdDescriptor : Type 0 where
  pub intent_id : Text
  pub event_index : ℕ
  pub event_name : Text
  pub schema_version : ℕ

-- `x ?? null` for each field of the origin: an absent field and `null` are both `none`
abbrev event_origin : ActorOrigin → ActorOrigin
event_origin o = o

prepend : {E A : Type 0} → Result E A → Result E (List A) → Result E (List A)
prepend (ok a) (ok rest) = ok (a ∷ rest)
prepend (ok a) (err e) = err e
prepend (err e) _ = err e

module _ {W E : Type 0} (create_event_id : EventIdDescriptor → Result E Text)
    (now : W → Timestamp × W) where
  -- one envelope; the identifier factory may refuse the descriptor
  unfoldable pub create_envelope : Operation → Text → Timestamp → ℕ → Event → Result E EventEnvelope
  create_envelope operation correlation_id occurred_at event_index event =
      elim (create_event_id (record {
        intent_id = operation.intent.id;
        event_index = event_index;
        event_name = event.name;
        schema_version = event.schema_version;
      })) [
        | err e ↦ err e
        | ok event_id ↦ ok (record {
          event_id = event_id;
          event_name = event.name;
          schema_version = event.schema_version;
          occurred_at = occurred_at;
          intent_id = operation.intent.id;
          correlation_id = correlation_id;
          operation_name = operation.name;
          tenant = operation.tenant;
          actor = record {
            type = operation.actor.type;
            id = operation.actor.id;
            origin = event_origin operation.actor.origin;
          };
          subject = operation.subject;
          aggregate = operation.aggregate;
          payload = event.payload;
        })
      ]

  -- `events.map((event, eventIndex) => …)`, from the index of the first event on
  unfoldable pub envelopes_from :
      Operation → Text → Timestamp → ℕ → List Event → Result E (List EventEnvelope)
  unfolding create_envelope prepend
  envelopes_from operation correlation_id occurred_at i [] = ok []
  envelopes_from operation correlation_id occurred_at i (event ∷ rest) =
      prepend (create_envelope operation correlation_id occurred_at i event)
        (envelopes_from operation correlation_id occurred_at (i + 1) rest)

  -- DefaultOperationEventEnvelopeFactory.createMany
  unfoldable pub create_many_envelopes :
      Operation → Text → List Event → Exec W E (List EventEnvelope)
  unfolding envelopes_from
  create_many_envelopes operation correlation_id events w =
      let (occurred_at, w') = now w in
      (envelopes_from operation correlation_id occurred_at 0 events, w')

module _ {W : Type 0} (now : W → Timestamp × W) where
  -- DefaultOutboxRecordFactory.createMany: the clock is read only if there is an envelope
  unfoldable pub create_many_records : List EventEnvelope → W → List OutboxRecord × W
  create_many_records [] w = ([], w)
  create_many_records (envelope ∷ rest) w =
      let (created_at, w') = now w in
      (
        map (λ e. record { id = e.event_id; envelope = e; created_at = created_at })
            (envelope ∷ rest),
        w',
      )
