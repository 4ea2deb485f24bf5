-- ===== src/Reader/Lease/Flights.antt =====
-- A coordinated flight, under the lease protocol.
use event_driven_platform.Prelude.{ℕ, zero, suc, false, refl}
use event_driven_platform.Effects.{ok, err, ◌>>=◌}
use event_driven_platform.Effects.Hoare.{
  Triple, Triple-bind, Triple-attempt, Triple-pure, Triple-throw, weaken,
}
use event_driven_platform.Effects.Traced.{Traced, called-On, finally-Triple}
use event_driven_platform.Execution.{Timestamp}
use event_driven_platform.Coordinator.{
  ReadExecutionLeaseReference, ClaimReadExecutionResult, acquired, already_in_progress,
  WaitForReadExecutionResult, ReleaseReadExecutionRequest,
}
use event_driven_platform.Reader.Errors.{coordinator_unavailable}
use event_driven_platform.Reader.Environment.{
  ReaderObservationContext, CoordinationOutcome, distributed_coordination_completed,
  ReadExecutionCoordinator, DefaultReaderDependencies, ReaderCall, claim_answered, wait_answered,
  release_answered, ran_out_of_fuel, ReaderRun,
}
use event_driven_platform.Reader.Flight.{
  SharedReadResult, hit, miss, DistributedReadFlightRequest, LeaseState, owned, use_shared,
  release_lease, run_as_owner, claim_read_request, wait_request, after_wait,
  wait_for_current_flight, hit_or, after_read_claim, run_flight, observe_coordination,
}
use event_driven_platform.Reader.Lease.{without_result, free, held, lease_next, AtLease}
use event_driven_platform.Reader.Lease.Steps.{
  OnLog, AtLease-next, called-AtLease, reader_now-AtLease, observe_since-AtLease,
}
use event_driven_platform.Reader.Lease.Renewals.{
  Holds, Callbacks, InState, Holding, is_lost, during-InState,
}
use event_driven_platform.Reader.Lease.Publication.{read_and_publish-HoldsOwned}

module _ {W A Number : Type 0} (d : DefaultReaderDependencies W A Number)
    (coordinator : ReadExecutionCoordinator W Number) (context : ReaderObservationContext)
    (request : DistributedReadFlightRequest W A Number) where
  module _ (lease : ReadExecutionLeaseReference) where
    use_shared-Holds :
        Callbacks d coordinator context request
        → (shared : SharedReadResult A × LeaseState)
        → Triple
            (InState d coordinator context request lease shared.1 without_result)
            (use_shared d coordinator context request lease shared)
            (λ _. OnLog (Holds lease))
            (Holding d coordinator context request lease)
    unfolding use_shared
    use_shared-Holds c (hit value, state) =
        Triple-pure value (λ x q. (is_lost state, without_result, q))
    use_shared-Holds c (miss, state) =
        weaken (read_and_publish-HoldsOwned d coordinator context request lease c state) (λ x q. q)
          (λ a x q. (false, q.0, q.1)) (λ e x q. q)

    release_lease-Free :
        Triple
          (OnLog (Holds lease))
          (release_lease d coordinator context request lease)
          (λ _. OnLog (AtLease free))
          (λ _. OnLog (AtLease free))
    unfolding release_lease
    release_lease-Free =
        let asked : ReleaseReadExecutionRequest = record { key = request.key; lease = lease } in
        Triple-attempt (λ _. OnLog (AtLease free)) (λ _. OnLog (AtLease free))
          (called-On (Holds lease) (λ _. AtLease free) (λ _. AtLease free)
            (coordinator.release asked) (release_answered asked)
            (λ t a h.
              AtLease-next (held lease h.0 h.1) free t (release_answered asked (ok a)) h.2 refl
                refl)
            (λ t e h.
              AtLease-next (held lease h.0 h.1) free t (release_answered asked (err e)) h.2 refl
                refl))
          (λ _. Triple-pure tt (λ x q. q)) (λ _. Triple-pure tt (λ x q. q))

    -- the lease is released, once, whatever the owner's work comes to
    run_as_owner-Free :
        Callbacks d coordinator context request
        → Triple
            (OnLog (AtLease (held lease false without_result)))
            (run_as_owner d coordinator context request lease)
            (λ _. OnLog (AtLease free))
            (λ _. OnLog (AtLease free))
    unfolding run_as_owner
    run_as_owner-Free c =
        finally-Triple (λ _. OnLog (Holds lease)) (Holding d coordinator context request lease)
          (Triple-bind
            (λ shared. InState d coordinator context request lease shared.1 without_result)
            (during-InState d coordinator context request lease owned without_result without_result
              request.read_shared (c.read_shared (held lease false without_result) (tt, refl)))
            (use_shared-Holds c))
          (λ _. release_lease-Free) (λ _. release_lease-Free)

  abbrev IsFreeLog : Traced W (ReaderCall A Number) → Type 0
  IsFreeLog = OnLog (AtLease free)

  waited-Free :
      Callbacks d coordinator context request
      → (t : Timestamp)
      → Triple IsFreeLog
          (observe_coordination d coordinator context request CoordinationOutcome.waiter t >>= λ _.
            request.read_shared)
          (λ _. IsFreeLog)
          (λ _. IsFreeLog)
  unfolding observe_coordination
  waited-Free c t =
      Triple-bind (λ _. IsFreeLog)
        (observe_since-AtLease d free (λ _. IsFreeLog)
          (distributed_coordination_completed context CoordinationOutcome.waiter) t)
        (λ _. c.read_shared free (tt, refl))

  after_wait-Free :
      Callbacks d coordinator context request
      → (t : Timestamp) (r : WaitForReadExecutionResult)
      → Triple IsFreeLog
          (after_wait d coordinator context request t r)
          (λ _. IsFreeLog)
          (λ _. IsFreeLog)
  unfolding after_wait observe_coordination
  after_wait-Free c t (WaitForReadExecutionResult.unavailable reason) =
      Triple-bind (λ _. IsFreeLog)
        (observe_since-AtLease d free (λ _. IsFreeLog)
          (distributed_coordination_completed context CoordinationOutcome.unavailable) t)
        (λ _. Triple-throw (coordinator_unavailable reason) (λ x q. q))
  after_wait-Free c t WaitForReadExecutionResult.released = waited-Free c t
  after_wait-Free c t WaitForReadExecutionResult.timed_out = waited-Free c t
  after_wait-Free c t WaitForReadExecutionResult.cancelled = waited-Free c t

  wait_for_current_flight-Free :
      Callbacks d coordinator context request
      → (t : Timestamp)
      → Triple IsFreeLog
          (wait_for_current_flight d coordinator context request t)
          (λ _. IsFreeLog)
          (λ _. IsFreeLog)
  unfolding wait_for_current_flight
  wait_for_current_flight-Free c t =
      Triple-bind (λ _. IsFreeLog)
        (called-AtLease free (coordinator.wait (wait_request d coordinator context request))
          wait_answered (λ r. tt))
        (after_wait-Free c t)

  hit_or-Free :
      (again : ReaderRun W A Number A) (shared : SharedReadResult A)
      → Triple IsFreeLog again (λ _. IsFreeLog) (λ _. IsFreeLog)
      → Triple IsFreeLog
          (hit_or d coordinator context request again shared)
          (λ _. IsFreeLog)
          (λ _. IsFreeLog)
  unfolding hit_or
  hit_or-Free again (hit value) h = Triple-pure value (λ x q. q)
  hit_or-Free again miss h = h

  after_read_claim-Free :
      Callbacks d coordinator context request
      → (t : Timestamp) (again : ReaderRun W A Number A) (r : ClaimReadExecutionResult)
      → Triple IsFreeLog again (λ _. IsFreeLog) (λ _. IsFreeLog)
      → Triple
          (OnLog (AtLease (lease_next {A = A} {Number = Number} free (claim_answered (ok r)))))
          (after_read_claim d coordinator context request t again r)
          (λ _. IsFreeLog)
          (λ _. IsFreeLog)
  unfolding after_read_claim observe_coordination
  after_read_claim-Free c t again (ClaimReadExecutionResult.unavailable reason) h =
      Triple-bind (λ _. IsFreeLog)
        (observe_since-AtLease d free (λ _. IsFreeLog)
          (distributed_coordination_completed context CoordinationOutcome.unavailable) t)
        (λ _. Triple-throw (coordinator_unavailable reason) (λ x q. q))
  after_read_claim-Free c t again already_in_progress h =
      Triple-bind (λ _. IsFreeLog) (wait_for_current_flight-Free c t)
        (λ shared. hit_or-Free again shared h)
  after_read_claim-Free c t again (acquired lease) h =
      Triple-bind (λ _. OnLog (AtLease (held lease false without_result)))
        (observe_since-AtLease d (held lease false without_result) (λ _. IsFreeLog)
          (distributed_coordination_completed context CoordinationOutcome.owner) t)
        (λ _. run_as_owner-Free lease c)

  pub run_flight-Free :
      Callbacks d coordinator context request
      → (rounds : ℕ)
      → Triple IsFreeLog
          (run_flight d coordinator context request rounds)
          (λ _. IsFreeLog)
          (λ _. IsFreeLog)
  unfolding run_flight
  run_flight-Free c zero = record {
    at = λ s q. AtLease-next free free s.calls ran_out_of_fuel q tt refl;
  }
  run_flight-Free c (suc rounds) =
      Triple-bind (λ _. IsFreeLog) (reader_now-AtLease d free (λ _. IsFreeLog))
        (λ t.
          Triple-bind
            (λ r.
              OnLog (AtLease (lease_next {A = A} {Number = Number} free (claim_answered (ok r)))))
            (called-AtLease free
              (coordinator.claim (claim_read_request d coordinator context request)) claim_answered
              (λ r. tt))
            (λ r.
              after_read_claim-Free c t (run_flight d coordinator context request rounds) r
                (run_flight-Free c rounds)))
