-- ===== src/Reader/Lease/Publication.antt =====
-- The publication of the result of the source by the owner of a flight, under the lease protocol.
use event_driven_platform.Prelude.{Bool, true, false, ◌≡◌, refl, ap, ◌∙◌, subst}
use event_driven_platform.Effects.Hoare.{Triple, Triple-bind, Triple-pure, Triple-throw, weaken}
use event_driven_platform.Coordinator.{ReadExecutionLeaseReference}
use event_driven_platform.Reader.Errors.{ReaderError, coordinator_unavailable}
use event_driven_platform.Reader.Environment.{
  ReaderObservationContext, ReadExecutionCoordinator, DefaultReaderDependencies,
}
use event_driven_platform.Reader.Flight.{
  DistributedReadFlightRequest, LeaseState, owned, lost, unavailable, renewals, assert_ownership,
  read_and_publish,
}
use event_driven_platform.Reader.Lease.{
  Stage, without_result, with_result, publishing, LeasePhase, held, written, IsWritable, AtLease,
}
use event_driven_platform.Reader.Lease.Steps.{OnLog}
use event_driven_platform.Reader.Lease.Reads.{AtOneOf, WriteLaws}
use event_driven_platform.Reader.Lease.Renewals.{
  is_lost, HoldsOwned, Callbacks, Log, InState, Holding, renewals-InState, during-InState,
}

true_not_false : ◌≡◌ {A = Bool} true false → ⊥
true_not_false e = cc

-- the phases in which a publication may be: a result is written, or is to be and the lease is not lost
abbrev Publishes : Bool → Stage → Type 0
Publishes b publishing = Unit
Publishes false with_result = Unit
Publishes true with_result = ⊥
Publishes b without_result = ⊥

abbrev pub IsPublication : ReadExecutionLeaseReference → LeaseState → LeasePhase → Type 0
IsPublication lease state q =
    (s : Stage) × (Publishes (is_lost state) s) × (q ≡ held lease (is_lost state) s)

Publishes-IsWritable :
    (lease : ReadExecutionLeaseReference) (b : Bool) (s : Stage)
    → Publishes b s
    → IsWritable (held lease b s)
Publishes-IsWritable lease true publishing f = tt
Publishes-IsWritable lease false publishing f = tt
Publishes-IsWritable lease false with_result f = tt
Publishes-IsWritable lease true with_result f = f
Publishes-IsWritable lease b without_result f = absurd f

Publishes-written :
    (lease : ReadExecutionLeaseReference) (b : Bool) (s : Stage)
    → Publishes b s
    → written (held lease b s) ≡ held lease b publishing
Publishes-written lease b publishing f = refl
Publishes-written lease b with_result f = refl
Publishes-written lease b without_result f = absurd f

publishing-IsPublication :
    (lease : ReadExecutionLeaseReference) (state : LeaseState)
    → IsPublication lease state (held lease (is_lost state) publishing)
publishing-IsPublication lease state = (publishing, tt, refl)

module _ {W A Number : Type 0} (d : DefaultReaderDependencies W A Number)
    (coordinator : ReadExecutionCoordinator W Number) (context : ReaderObservationContext)
    (request : DistributedReadFlightRequest W A Number) where
  module _ (lease : ReadExecutionLeaseReference) where
    -- the check passes only for a lease that is not known to be lost
    abbrev Checked : LeaseState → Stage → (Log d coordinator context request) → Type 0
    Checked state s x =
        (is_lost state ≡ false) × (InState d coordinator context request lease) owned s x

    assert_ownership-Checked :
        (state : LeaseState) (s : Stage)
        → Triple
            ((InState d coordinator context request lease) state s)
            (assert_ownership d coordinator context request state)
            (λ _. Checked state s)
            (Holding d coordinator context request lease)
    unfolding assert_ownership
    assert_ownership-Checked owned s = Triple-pure tt (λ x q. (refl, q))
    assert_ownership-Checked lost s = Triple-throw ReaderError.ownership_lost (λ x q. (true, s, q))
    assert_ownership-Checked (unavailable reason) s =
        Triple-throw (coordinator_unavailable reason) (λ x q. (true, s, q))

    abbrev InPublication : LeaseState → (Log d coordinator context request) → Type 0
    InPublication state = OnLog (AtOneOf (IsPublication lease) state)

    -- renewals may fail while a level is written: the publication has begun then
    renewals-WriteLaws :
        WriteLaws d
          (renewals d coordinator context request lease)
          (IsPublication lease)
          (Holding d coordinator context request lease)
    renewals-WriteLaws = record {
      writable = λ state q f. rw f.2 (Publishes-IsWritable lease (is_lost state) f.0 f.1);
      meantime = λ state q f.
          let e = ap written f.2 ∙ Publishes-written lease (is_lost state) f.0 f.1 in
          weaken ((renewals-InState d coordinator context request lease) state publishing)
            (λ x a. subst (λ p. AtLease p x.calls) e a)
            (λ state' x a.
              (held lease (is_lost state') publishing, publishing-IsPublication lease state', a))
            (λ e x a. a);
    }

    publish-InPublication :
        (Callbacks d coordinator context request)
        → (a : A) (state : LeaseState)
        → Triple
            (Checked state with_result)
            (request.publish_source_result (renewals d coordinator context request lease) a state)
            InPublication
            (Holding d coordinator context request lease)
    publish-InPublication c a owned =
        weaken
          (c.publish (renewals d coordinator context request lease) (IsPublication lease)
            (Holding d coordinator context request lease) renewals-WriteLaws a owned
            (held lease false with_result) (with_result, tt, refl))
          (λ x q. q.1) (λ b x q. q) (λ e x q. q)
    publish-InPublication c a lost = record { at = λ x q. absurd (true_not_false q.0) }
    publish-InPublication c a (unavailable reason) = record {
      at = λ x q. absurd (true_not_false q.0);
    }

    -- the check after the publication
    published-HoldsOwned :
        (state : LeaseState)
        → Triple
            (InPublication state)
            (assert_ownership d coordinator context request state)
            (λ _. OnLog (HoldsOwned lease))
            (Holding d coordinator context request lease)
    published-HoldsOwned state = record {
      at = λ x h.
          (weaken (assert_ownership-Checked state h.1.0) (λ y q. q) (λ a y q. (h.1.0, q.1))
              (λ e y q. q)).at
            x (subst (λ p. AtLease p x.calls) h.1.2 h.2);
    }

    -- The owner of a lease returns what the source answered only if no renewal is known to have
    -- failed, neither before the result was written to the cache levels nor in the meantime; and the
    -- writing is not begun once one has. Whatever it throws, it still holds the lease, which the
    -- caller releases.
    pub read_and_publish-HoldsOwned :
        (Callbacks d coordinator context request)
        → (state : LeaseState)
        → Triple
            ((InState d coordinator context request lease) state without_result)
            (read_and_publish d coordinator context request lease state)
            (λ _. OnLog (HoldsOwned lease))
            (Holding d coordinator context request lease)
    unfolding read_and_publish
    read_and_publish-HoldsOwned c state =
        Triple-bind (λ source. (InState d coordinator context request lease) source.1 with_result)
          ((during-InState d coordinator context request lease) state without_result with_result
            request.execute_source (c.execute_source lease (is_lost state)))
          (λ source.
            Triple-bind (λ _. Checked source.1 with_result)
              (assert_ownership-Checked source.1 with_result)
              (λ _.
                Triple-bind InPublication (publish-InPublication c source.0 source.1) (λ published.
                  Triple-bind (λ _. OnLog (HoldsOwned lease)) (published-HoldsOwned published)
                    (λ _. Triple-pure source.0 (λ x q. q)))))
