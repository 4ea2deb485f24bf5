-- ===== src/Outbox/Positions.antt =====
-- Envelopes stand at the positions of their events.
use event_driven_platform.Prelude.{
  ℕ, zero, suc, ◌+◌, ◌≡◌, refl, subst, List, [], ◌∷◌, Option, none, some, Text, get_elem?, ◌⊎◌, inl,
  inr, arith,
}
use event_driven_platform.Effects.{Result, ok, err}
use event_driven_platform.Domain.{Event, Operation}
use event_driven_platform.Execution.{Timestamp}
use event_driven_platform.Outbox.{
  EventEnvelope, EventIdDescriptor, prepend, create_envelope, envelopes_from, create_many_envelopes,
}

result_cases : {E A : Type 0} (r : Result E A) → ((a : A) × (r ≡ ok a)) ⊎ ((e : E) × (r ≡ err e))
result_cases (ok a) = inl (a, refl)
result_cases (err e) = inr (e, refl)

module _ {E : Type 0} (create_event_id : EventIdDescriptor → Result E Text) (operation : Operation)
    (correlation_id : Text) (occurred_at : Timestamp) where
  -- the identifier that the factory gives the event at a position
  abbrev pub event_id_at : ℕ → Event → Result E Text
  event_id_at i e = create_event_id (record {
    intent_id = operation.intent.id;
    event_index = i;
    event_name = e.name;
    schema_version = e.schema_version;
  })

  -- the event at a position, with its identifier, as an envelope
  abbrev pub EnvelopeOf : ℕ → Event → EventEnvelope → Type 0
  EnvelopeOf i e x =
      (event_id_at i e ≡ ok x.event_id)
      × (x.event_name ≡ e.name)
      × (x.schema_version ≡ e.schema_version)
      × (x.payload ≡ e.payload)
      × (x.occurred_at ≡ occurred_at)
      × (x.intent_id ≡ operation.intent.id)
      × (x.correlation_id ≡ correlation_id)
      × (x.operation_name ≡ operation.name)
      × (x.tenant ≡ operation.tenant)
      × (x.actor.type ≡ operation.actor.type)
      × (x.actor.id ≡ operation.actor.id)
      × (x.actor.origin ≡ operation.actor.origin)
      × (x.subject ≡ operation.subject)
      × (x.aggregate ≡ operation.aggregate)

  -- an event at a position, and the envelope there
  abbrev pub Describes : ℕ → Option Event → Option EventEnvelope → Type 0
  Describes i none none = Unit
  Describes i none (some x) = ⊥
  Describes i (some e) none = ⊥
  Describes i (some e) (some x) = EnvelopeOf i e x

  -- the envelopes of events from position `i` on; or the error of the identifier of one of them
  abbrev pub Described : ℕ → List Event → Result E (List EventEnvelope) → Type 0
  Described i events (ok xs) = (k : ℕ) → Describes (i + k) (get_elem? events k) (get_elem? xs k)
  Described i events (err x) =
      (k : ℕ) × (e : Event) × (get_elem? events k ≡ some e) × (event_id_at (i + k) e ≡ err x)

  -- what is made of one event
  abbrev Made : ℕ → Event → Result E EventEnvelope → Type 0
  Made i e (ok x) = EnvelopeOf i e x
  Made i e (err x) = event_id_at i e ≡ err x

  position :
      (i : ℕ) (e : Event) (events : List Event) (x : EventEnvelope) (xs : List EventEnvelope)
      → EnvelopeOf i e x
      → Described (i + 1) events (ok xs)
      → Described i (e ∷ events) (ok (x ∷ xs))
  position i e events x xs p h zero = subst (λ n. Describes n (some e) (some x)) (omega arith) p
  position i e events x xs p h (suc k) =
      subst (λ n. Describes n (get_elem? events k) (get_elem? xs k)) (omega arith) (h k)

  prepend-Described :
      (i : ℕ) (e : Event) (events : List Event) (first : Result E EventEnvelope)
      (rest : Result E (List EventEnvelope))
      → Made i e first
      → Described (i + 1) events rest
      → Described i (e ∷ events) (prepend first rest)
  unfolding prepend
  prepend-Described i e events (ok x) (ok xs) p h = position i e events x xs p h
  prepend-Described i e events (ok x) (err y) p h =
      (suc h.0, h.1, h.2, subst (λ n. event_id_at n h.1 ≡ err y) (omega arith) h.3)
  prepend-Described i e events (err y) rest p h =
      (0, e, refl, subst (λ n. event_id_at n e ≡ err y) (omega arith) p)

  create_envelope-Made :
      {W : Type 0} (now : W → Timestamp × W) (i : ℕ) (e : Event)
      → Made i e (create_envelope create_event_id now operation correlation_id occurred_at i e)
  unfolding create_envelope
  create_envelope-Made now i e = elim (result_cases (event_id_at i e)) [
    | inl (id, h) ↦
        rw (h, Made)
          (h, refl, refl, refl, refl, refl, refl, refl, refl, refl, refl, refl, refl, refl)
    | inr (x, h) ↦ rw (h, Made) h
  ]

  pub envelopes_from-Described :
      {W : Type 0} (now : W → Timestamp × W) (i : ℕ) (events : List Event)
      → Described i events
          (envelopes_from create_event_id now operation correlation_id occurred_at i events)
  unfolding envelopes_from
  envelopes_from-Described now i [] = λ k. tt
  envelopes_from-Described now i (e ∷ events) =
      prepend-Described i e events _ _ (create_envelope-Made now i e)
        (envelopes_from-Described now (i + 1) events)

module _ {W E : Type 0} (create_event_id : EventIdDescriptor → Result E Text)
    (now : W → Timestamp × W) where
  -- If the envelopes of an operation's events can be made, there are just as many as events. Each
  -- has the identifier that is made from the intent's identifier, the position, and the event's
  -- name and version; the event's name, version and payload; the time of one reading of the
  -- clock; the correlation identifier; and the intent, the name, the actor and the references of
  -- the operation. Otherwise the error is that of the identifier of one of the events.
  pub create_many_envelopes-Described :
      (operation : Operation) (correlation_id : Text) (events : List Event) (w : W)
      → Described create_event_id operation correlation_id
          (now w).0
          0
          events
          (create_many_envelopes create_event_id now operation correlation_id events w).0
  unfolding create_many_envelopes
  create_many_envelopes-Described operation correlation_id events w =
      envelopes_from-Described create_event_id operation correlation_id (now w).0 now 0 events
