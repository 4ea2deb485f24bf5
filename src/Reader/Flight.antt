-- ===== src/Reader/Flight.antt =====
-- packages/reader/src/lib/inflight/distributed-read-flight.ts: one owner of a lease reads the source
-- and publishes the result, while the callers without the lease wait. What the renewal timer does
-- while the owner waits for something is done when the wait is over: as many rounds as the
-- environment says, each a call of `renew`, until one of them is not answered by `renewed`. The
-- publication waits for the write to each cache level, so renewals may fall between the levels.
use event_driven_platform.Prelude.{ℕ, zero, suc, false, Text}
use event_driven_platform.Effects.{pure, throw, ◌>>=◌, ◌>>◌, attempt}
use event_driven_platform.Effects.Traced.{called, answered, sensed, finally}
use event_driven_platform.Execution.{Timestamp}
use event_driven_platform.Coordinator.{
  ReadExecutionLeaseReference, ClaimReadExecutionResult, acquired, already_in_progress,
  WaitForReadExecutionResult, RenewReadExecutionResult, RenewReadExecutionRequest,
  ReleaseReadExecutionRequest, ClaimReadExecutionRequest, WaitForReadExecutionRequest,
}
use event_driven_platform.ReadCacheInMemory.{TenantScopedReadCacheKey}
use event_driven_platform.Reader.Errors.{ReaderError, coordinator_unavailable}
use event_driven_platform.Reader.Environment.{
  ReaderObservationContext, CoordinationOutcome, distributed_coordination_completed,
  ReadExecutionCoordinator, DefaultReaderDependencies, claim_answered, wait_answered,
  renew_answered, release_answered, ReaderRun, reader_now, observe_since,
}
use event_driven_platform.Reader.Source.{out_of_fuel}

pub data SharedReadResult (A : Type 0) : Type 0 where
  hit : (value : A) → SharedReadResult A
  miss : SharedReadResult A

-- `leaseState`, with `unavailableReason`
pub data LeaseState : Type 0 where
  owned lost : LeaseState
  unavailable : (reason : Text) → LeaseState

pub record DistributedReadFlightRequest (W A Number : Type 0) : Type 0 where
  pub key : TenantScopedReadCacheKey
  pub owner_id : Text
  pub lease_duration_ms : Number
  pub read_shared : ReaderRun W A Number (SharedReadResult A)
  pub execute_source : ReaderRun W A Number A
  -- with the renewals that fall into the write to a level, and the state of the lease before and after
  pub publish_source_result :
      (LeaseState → ReaderRun W A Number LeaseState)
      → A
      → LeaseState
      → ReaderRun W A Number LeaseState

module _ {W A Number : Type 0} (d : DefaultReaderDependencies W A Number)
    (coordinator : ReadExecutionCoordinator W Number) (context : ReaderObservationContext)
    (request : DistributedReadFlightRequest W A Number) where
  unfoldable pub observe_coordination :
      CoordinationOutcome → Timestamp → ReaderRun W A Number (Unit {0})
  unfolding observe_since
  observe_coordination outcome started_at =
      observe_since d (distributed_coordination_completed context outcome) started_at

  abbrev pub renew_request : ReadExecutionLeaseReference → RenewReadExecutionRequest Number
  renew_request lease = record {
    key = request.key;
    lease = lease;
    lease_duration_ms = request.lease_duration_ms;
  }

  -- what follows the answer of `renew`: the next round only if the lease was renewed
  unfoldable pub after_renewal :
      Timestamp
      → ReaderRun W A Number LeaseState
      → RenewReadExecutionResult
      → ReaderRun W A Number LeaseState
  unfolding observe_coordination
  after_renewal started_at next (RenewReadExecutionResult.renewed lease) = next
  after_renewal started_at next RenewReadExecutionResult.ownership_lost = do
    observe_coordination CoordinationOutcome.ownership_lost started_at
    pure lost
  after_renewal started_at next (RenewReadExecutionResult.unavailable reason) = do
    observe_coordination CoordinationOutcome.unavailable started_at
    pure (unavailable reason)

  -- the rounds of the timer; none once the lease is known to be lost
  unfoldable pub renew_rounds :
      ReadExecutionLeaseReference → ℕ → LeaseState → ReaderRun W A Number LeaseState
  unfolding reader_now answered after_renewal
  renew_rounds lease zero state = pure state
  renew_rounds lease (suc n) owned = do
    started_at ← reader_now d
    result ←
        answered (coordinator.renew (renew_request lease)) (renew_answered (renew_request lease))
    after_renewal started_at (renew_rounds lease n owned) result
  renew_rounds lease (suc n) lost = pure lost
  renew_rounds lease (suc n) (unavailable reason) = pure (unavailable reason)

  -- what the timer does in a wait
  unfoldable pub renewals :
      ReadExecutionLeaseReference → LeaseState → ReaderRun W A Number LeaseState
  unfolding sensed renew_rounds
  renewals lease state = sensed d.timer_rounds >>= λ n. renew_rounds lease n state

  -- a wait for the shared levels or the source, with the rounds of the timer in it
  unfoldable pub during :
      {B : Type 0}
      → ReadExecutionLeaseReference
      → LeaseState
      → ReaderRun W A Number B
      → ReaderRun W A Number (B × LeaseState)
  unfolding renewals
  during lease state work =
      attempt work (λ b. do state' ← renewals lease state; pure (b, state'))
        (λ e. do renewals lease state; throw e)

  unfoldable pub assert_ownership : LeaseState → ReaderRun W A Number (Unit {0})
  assert_ownership owned = pure tt
  assert_ownership lost = throw ReaderError.ownership_lost
  assert_ownership (unavailable reason) = throw (coordinator_unavailable reason)

  -- the source, and its result to the cache levels, with a check of the ownership after either; none
  -- between the levels
  unfoldable pub read_and_publish :
      ReadExecutionLeaseReference → LeaseState → ReaderRun W A Number A
  unfolding during renewals assert_ownership
  read_and_publish lease state = do
    source ← during lease state request.execute_source
    assert_ownership source.1
    published ← request.publish_source_result (renewals lease) source.0 source.1
    assert_ownership published
    pure source.0

  unfoldable pub use_shared :
      ReadExecutionLeaseReference → SharedReadResult A × LeaseState → ReaderRun W A Number A
  unfolding read_and_publish
  use_shared lease (hit value, state) = pure value
  use_shared lease (miss, state) = read_and_publish lease state

  -- the release of the lease in the `finally`: its answer and its throw are dropped
  unfoldable pub release_lease : ReadExecutionLeaseReference → ReaderRun W A Number (Unit {0})
  unfolding called
  release_lease lease =
      let release : ReleaseReadExecutionRequest = record { key = request.key; lease = lease } in
      attempt (called (coordinator.release release) (release_answered release)) (λ _. pure tt)
        (λ (_ : ReaderError). pure tt)

  unfoldable pub run_as_owner : ReadExecutionLeaseReference → ReaderRun W A Number A
  unfolding finally during use_shared release_lease
  run_as_owner lease =
      finally (during lease owned request.read_shared >>= use_shared lease) (release_lease lease)

  abbrev pub claim_read_request : ClaimReadExecutionRequest Number
  claim_read_request = record {
    key = request.key;
    owner_id = request.owner_id;
    lease_duration_ms = request.lease_duration_ms;
  }

  abbrev pub wait_request : WaitForReadExecutionRequest Number
  wait_request = record {
    key = request.key;
    timeout_ms = request.lease_duration_ms;
    signal = false;
  }

  -- every answer of `wait` but `unavailable` is followed by another look at the shared levels
  unfoldable pub after_wait :
      Timestamp → WaitForReadExecutionResult → ReaderRun W A Number (SharedReadResult A)
  unfolding observe_coordination
  after_wait started_at (WaitForReadExecutionResult.unavailable reason) = do
    observe_coordination CoordinationOutcome.unavailable started_at
    throw (coordinator_unavailable reason)
  after_wait started_at _ = do
    observe_coordination CoordinationOutcome.waiter started_at
    request.read_shared

  unfoldable pub wait_for_current_flight : Timestamp → ReaderRun W A Number (SharedReadResult A)
  unfolding called after_wait
  wait_for_current_flight started_at = do
    wait ← called (coordinator.wait wait_request) wait_answered
    after_wait started_at wait

  unfoldable pub hit_or : ReaderRun W A Number A → SharedReadResult A → ReaderRun W A Number A
  hit_or again (hit value) = pure value
  hit_or again miss = again

  -- what follows a claim: the next round of the loop is `again`
  unfoldable pub after_read_claim :
      Timestamp → ReaderRun W A Number A → ClaimReadExecutionResult → ReaderRun W A Number A
  unfolding observe_coordination wait_for_current_flight hit_or run_as_owner
  after_read_claim started_at again (ClaimReadExecutionResult.unavailable reason) = do
    observe_coordination CoordinationOutcome.unavailable started_at
    throw (coordinator_unavailable reason)
  after_read_claim started_at again already_in_progress =
      wait_for_current_flight started_at >>= hit_or again
  after_read_claim started_at again (acquired lease) = do
    observe_coordination CoordinationOutcome.owner started_at
    run_as_owner lease

  -- DistributedReadFlight.run, for at most `rounds` rounds of its `while (true)`
  unfoldable pub run_flight : (rounds : ℕ) → ReaderRun W A Number A
  unfolding reader_now called after_read_claim out_of_fuel
  run_flight zero = out_of_fuel d
  run_flight (suc rounds) = do
    started_at ← reader_now d
    claim ← called (coordinator.claim claim_read_request) claim_answered
    after_read_claim started_at (run_flight rounds) claim
