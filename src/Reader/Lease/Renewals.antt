-- ===== src/Reader/Lease/Renewals.antt =====
-- The owner of a flight and the renewals of its lease, under the lease protocol.
use event_driven_platform.Prelude.{ℕ, zero, suc, Bool, true, false, refl, List}
use event_driven_platform.Effects.Hoare.{
  Triple, Triple-bind, Triple-attempt, Triple-pure, Triple-throw,
}
use event_driven_platform.Effects.Traced.{Traced, answered-On}
use event_driven_platform.Execution.{Timestamp}
use event_driven_platform.Coordinator.{ReadExecutionLeaseReference, RenewReadExecutionResult}
use event_driven_platform.Reader.Errors.{ReaderError}
use event_driven_platform.Reader.Environment.{
  ReaderObservationContext, CoordinationOutcome, distributed_coordination_completed,
  ReadExecutionCoordinator, DefaultReaderDependencies, ReaderCall, renew_answered, ReaderRun,
}
use event_driven_platform.Reader.Flight.{
  DistributedReadFlightRequest, LeaseState, owned, lost, unavailable, renew_request, after_renewal,
  renew_rounds, renewals, during, observe_coordination,
}
use event_driven_platform.Reader.Lease.{
  Stage, without_result, with_result, LeasePhase, held, after_renew, AtLease,
}
use event_driven_platform.Reader.Lease.Steps.{
  OnLog, AtLease-next, sensed-AtLease, reader_now-AtLease, observe_since-AtLease,
}
use event_driven_platform.Reader.Lease.Reads.{IsStill, WriteLaws, Writes}

-- whether a renewal is known to have failed
abbrev pub is_lost : LeaseState → Bool
is_lost owned = false
is_lost lost = true
is_lost (unavailable reason) = true

-- a lease is held, whatever has become of it
abbrev pub Holds :
    {A Number : Type 0} → ReadExecutionLeaseReference → List (ReaderCall A Number) → Type 0
Holds lease t = (b : Bool) × (s : Stage) × AtLease (held lease b s) t

-- a lease is held, and no renewal of it has failed
abbrev pub HoldsOwned :
    {A Number : Type 0} → ReadExecutionLeaseReference → List (ReaderCall A Number) → Type 0
HoldsOwned lease t = (s : Stage) × AtLease (held lease false s) t

module _ {W A Number : Type 0} (d : DefaultReaderDependencies W A Number)
    (coordinator : ReadExecutionCoordinator W Number) (context : ReaderObservationContext)
    (request : DistributedReadFlightRequest W A Number) where
  abbrev pub Log : Type 0
  Log = Traced W (ReaderCall A Number)

  -- what the three callbacks of the request do under the protocol
  pub record Callbacks : Type 1 where
    pub read_shared :
        (p : LeasePhase)
        → IsStill p
        → Triple
            (OnLog (AtLease p))
            request.read_shared
            (λ _. OnLog (AtLease p))
            (λ _. OnLog (AtLease p))
    pub execute_source :
        (l : ReadExecutionLeaseReference) (b : Bool)
        → Triple
            (OnLog (AtLease (held l b without_result)))
            request.execute_source
            (λ _. OnLog (AtLease (held l b with_result)))
            (λ _. OnLog (AtLease (held l b without_result)))
    pub publish :
        (between : LeaseState → ReaderRun W A Number LeaseState)
        (Fits : LeaseState → LeasePhase → Type 0) (R : ReaderError → Log → Type 0)
        → WriteLaws d between Fits R
        → (a : A) → Writes d between Fits R (request.publish_source_result between a)

  module _ (lease : ReadExecutionLeaseReference) where
    abbrev pub InState : LeaseState → Stage → Log → Type 0
    InState state s = OnLog (AtLease (held lease (is_lost state) s))

    abbrev pub Holding : ReaderError → Log → Type 0
    Holding _ = OnLog (Holds lease)

    observe-InState :
        (b : Bool) (s : Stage) (outcome : CoordinationOutcome) (t : Timestamp)
        → Triple
            (OnLog (AtLease (held lease b s)))
            (observe_coordination d coordinator context request outcome t)
            (λ _. OnLog (AtLease (held lease b s)))
            Holding
    unfolding observe_coordination
    observe-InState b s outcome t =
        observe_since-AtLease d (held lease b s) Holding
          (distributed_coordination_completed context outcome) t

    after_renewal-InState :
        (s : Stage) (t : Timestamp) (next : ReaderRun W A Number LeaseState)
        (r : RenewReadExecutionResult)
        → Triple (InState owned s) next (λ state. InState state s) Holding
        → Triple
            (OnLog (AtLease (after_renew (held lease false s) r)))
            (after_renewal d coordinator context request t next r)
            (λ state. InState state s)
            Holding
    unfolding after_renewal
    after_renewal-InState s t next (RenewReadExecutionResult.renewed l) h = h
    after_renewal-InState s t next RenewReadExecutionResult.ownership_lost h =
        Triple-bind (λ _. InState lost s)
          (observe-InState true s CoordinationOutcome.ownership_lost t)
          (λ _. Triple-pure lost (λ x q. q))
    after_renewal-InState s t next (RenewReadExecutionResult.unavailable reason) h =
        Triple-bind (λ _. InState lost s) (observe-InState true s CoordinationOutcome.unavailable t)
          (λ _. Triple-pure (unavailable reason) (λ x q. q))

    renew_rounds-InState :
        (n : ℕ) (state : LeaseState) (s : Stage)
        → Triple
            (InState state s)
            (renew_rounds d coordinator context request lease n state)
            (λ state'. InState state' s)
            Holding
    unfolding renew_rounds
    renew_rounds-InState zero state s = Triple-pure state (λ x q. q)
    renew_rounds-InState (suc n) lost s = Triple-pure lost (λ x q. q)
    renew_rounds-InState (suc n) (unavailable reason) s =
        Triple-pure (unavailable reason) (λ x q. q)
    renew_rounds-InState (suc n) owned s =
        let asked = renew_request d coordinator context request lease in
        Triple-bind (λ _. InState owned s) (reader_now-AtLease d (held lease false s) Holding)
          (λ t.
            Triple-bind (λ r. OnLog (AtLease (after_renew (held lease false s) r)))
              (answered-On (AtLease (held lease false s))
                (λ r. AtLease (after_renew (held lease false s) r)) Holding
                (coordinator.renew asked) (renew_answered asked)
                (λ log r q.
                  AtLease-next (held lease false s) (after_renew (held lease false s) r) log
                    (renew_answered asked r) q refl refl))
              (λ r.
                after_renewal-InState s t (renew_rounds d coordinator context request lease n owned)
                  r (renew_rounds-InState n owned s)))

    pub renewals-InState :
        (state : LeaseState) (s : Stage)
        → Triple
            (InState state s)
            (renewals d coordinator context request lease state)
            (λ state'. InState state' s)
            Holding
    unfolding renewals
    renewals-InState state s =
        Triple-bind (λ _. InState state s)
          (sensed-AtLease (held lease (is_lost state) s) Holding d.timer_rounds)
          (λ n. renew_rounds-InState n state s)

    -- a wait for work that takes `s` to `s'`
    pub during-InState :
        {B : Type 0} (state : LeaseState) (s s' : Stage) (work : ReaderRun W A Number B)
        → Triple (InState state s) work (λ _. InState state s') (λ _. InState state s)
        → Triple
            (InState state s)
            (during d coordinator context request lease state work)
            (λ r. InState r.1 s')
            Holding
    unfolding during
    during-InState state s s' work h =
        Triple-attempt (λ _. InState state s') (λ _. InState state s) h
          (λ b.
            Triple-bind (λ state'. InState state' s') (renewals-InState state s')
              (λ state'. Triple-pure (b, state') (λ x q. q)))
          (λ e.
            Triple-bind (λ state'. InState state' s) (renewals-InState state s)
              (λ state'. Triple-throw e (λ x q. (is_lost state', s, q))))
