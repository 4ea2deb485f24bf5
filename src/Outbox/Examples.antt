-- ===== src/Outbox/Examples.antt =====
-- Two events of an operation, and their envelopes. The witnesses of the theorems about
-- positions stand here.
use event_driven_platform.Prelude.{
  ℕ, ◌+◌, ◌≡◌, refl, Text, text, decimal, List, [], ◌∷◌, ◌++◌, none,
}
use event_driven_platform.Effects.{Result, ok}
use event_driven_platform.Domain.{Reference, Operation, Event, user}
use event_driven_platform.Outbox.{EventIdDescriptor, EventEnvelope, create_many_envelopes}
use event_driven_platform.Outbox.Positions.{Described, create_many_envelopes-Described}

abbrev tick : ℕ → ℕ × ℕ
tick w = (w, w + 1)

abbrev create_event_id : EventIdDescriptor → Result Text Text
create_event_id d = ok (d.event_name ++ decimal d.event_index)

abbrev reference : Reference
reference = record { type = text "merchant"; id = text "m-1" }

abbrev operation : Operation
operation = record {
  name = text "CreateWallet";
  schema_version = 1;
  intent = record { id = text "intent-1"; key = text "wallet:create:v1" };
  actor = record {
    type = user;
    id = text "user-1";
    origin = record {
      ip_address = none;
      country_code = none;
      region = none;
      city = none;
      latitude = none;
      longitude = none;
      timezone = none;
      environment = none;
      host = none;
      instance_name = none;
    };
  };
  tenant = reference;
  subject = reference;
  aggregate = reference;
  payload = text "EUR";
}

abbrev two_events : List Event
two_events =
    record { name = text "wallet.created"; schema_version = 1; payload = text "wallet-1" }
    ∷ record { name = text "wallet.funded"; schema_version = 2; payload = text "10" }
    ∷ []

abbrev envelopes : List EventEnvelope
envelopes =
    record {
      event_id = text "wallet.created0";
      event_name = text "wallet.created";
      schema_version = 1;
      occurred_at = 7;
      intent_id = text "intent-1";
      correlation_id = text "flow-1";
      operation_name = text "CreateWallet";
      tenant = reference;
      actor = record { type = user; id = text "user-1"; origin = operation.actor.origin };
      subject = reference;
      aggregate = reference;
      payload = text "wallet-1";
    }
    ∷ []

one_envelope :
    (create_many_envelopes create_event_id tick operation
      (text "flow-1")
      (record { name = text "wallet.created"; schema_version = 1; payload = text "wallet-1" } ∷ [])
      7).0
    ≡ ok envelopes
unfolding create_many_envelopes text decimal
one_envelope = refl

create_many_envelopes-Described_example :
    Described create_event_id operation
      (text "flow-1")
      7
      0
      two_events
      (create_many_envelopes create_event_id tick operation (text "flow-1") two_events 7).0
create_many_envelopes-Described_example =
    create_many_envelopes-Described create_event_id tick operation (text "flow-1") two_events 7
