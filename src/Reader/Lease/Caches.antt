-- ===== src/Reader/Lease/Caches.antt =====
-- A read through the cache levels, under the lease protocol.
use event_driven_platform.Prelude.{
  ℕ, Bool, true, false, ◌&&◌, ◌==◌, if◌then◌else◌, Text, Option, none, some, refl, take, drop,
  length,
}
use event_driven_platform.Effects.{Result}
use event_driven_platform.Effects.Hoare.{Triple, Triple-bind, Triple-pure, Triple-throw}
use event_driven_platform.Reader.Errors.{ReaderError}
use event_driven_platform.Reader.Environment.{
  Query, QueryCachePlan, ReaderObservationContext, ReadExecutionCoordinator, local_inflight_joined,
  flight_joined, DefaultReaderDependencies, ReaderRun,
}
use event_driven_platform.Reader.Flight.{SharedReadResult, hit, miss}
use event_driven_platform.Reader.Traversal.{ReadCacheHit}
use event_driven_platform.Reader.Cached.{
  local_end_index, scoped_key, find_local, query_retry, execute_source_with_retry, backfill_hit,
  execute_source_and_backfill, shared_result, find_shared_cache_result, flight_request,
  start_flight, require_coordinator, coordinate, without_shared, without_local,
  execute_local_leader, join_or_lead, after_local, execute_cached,
}
use event_driven_platform.Reader.Lease.{LeasePhase, without_result, free, held, AtLease}
use event_driven_platform.Reader.Lease.Steps.{
  OnLog, called-AtLease, sensed-AtLease, reader_observe-AtLease,
}
use event_driven_platform.Reader.Lease.Reads.{
  Sources, execute_read_with_retry-Sources, find_hit-Stays, populate-Stays, IsStill,
  populate_between-Writes,
}
use event_driven_platform.Reader.Lease.Flights.{run_flight-Free}
use event_driven_platform.Reader.Lease.Renewals.{Callbacks}

module _ {W A Number : Type 0} (d : DefaultReaderDependencies W A Number) (query : Query W A Number)
    (plan : QueryCachePlan W A Number) (context : ReaderObservationContext) where
  execute_source_with_retry-Sources :
      (p : LeasePhase) → Sources d p context (execute_source_with_retry d query plan context)
  unfolding execute_source_with_retry
  execute_source_with_retry-Sources p =
      execute_read_with_retry-Sources d p context (query_retry query) query.read

  module _ (p : LeasePhase) (w : IsStill p) where
    abbrev Remains : {B : Type 0} → ReaderRun W A Number B → Type 0
    Remains work = Triple (OnLog (AtLease p)) work (λ _. OnLog (AtLease p)) (λ _. OnLog (AtLease p))

    backfill_hit-Remains :
        (found : ReadCacheHit A) → Remains (backfill_hit d query plan context found)
    unfolding backfill_hit
    backfill_hit-Remains found =
        Triple-bind (λ _. OnLog (AtLease p))
          (populate-Stays d p (scoped_key query plan) context w (take found.index plan.levels)
            found.value)
          (λ _. Triple-pure found.value (λ s h. h))

    shared_result-Remains :
        (found : Option (ReadCacheHit A)) → Remains (shared_result d query plan context found)
    unfolding shared_result
    shared_result-Remains none = Triple-pure miss (λ s h. h)
    shared_result-Remains (some found) =
        Triple-bind (λ _. OnLog (AtLease p)) (backfill_hit-Remains found)
          (λ value. Triple-pure (hit value) (λ s h. h))

    find_shared_cache_result-Remains :
        (i : ℕ) → Remains (find_shared_cache_result d query plan context i)
    unfolding find_shared_cache_result
    find_shared_cache_result-Remains i =
        Triple-bind (λ _. OnLog (AtLease p))
          (find_hit-Stays d p (scoped_key query plan) context (drop i plan.levels) i)
          shared_result-Remains

  pub flight_callbacks :
      (coordinator : ReadExecutionCoordinator W Number) (owner_id : Text) (ms : Number)
      → Callbacks d coordinator context (flight_request d query plan context owner_id ms)
  flight_callbacks coordinator owner_id ms = record {
    read_shared = λ p w. find_shared_cache_result-Remains p w (local_end_index plan.levels);
    execute_source = λ l b. execute_source_with_retry-Sources (held l b without_result);
    publish = λ between Fits R laws a.
        populate_between-Writes d between Fits R laws (scoped_key query plan) context a plan.levels;
  }

  abbrev RemainsFree : ReaderRun W A Number A → Type 0
  RemainsFree = Remains free (tt, refl)

  execute_source_and_backfill-Free : RemainsFree (execute_source_and_backfill d query plan context)
  unfolding execute_source_and_backfill
  execute_source_and_backfill-Free =
      Triple-bind (λ _. OnLog (AtLease free)) (execute_source_with_retry-Sources free)
        (λ a.
          Triple-bind (λ _. OnLog (AtLease free))
            (populate-Stays d free (scoped_key query plan) context (tt, refl) plan.levels a)
            (λ _. Triple-pure a (λ s h. h)))

  start_flight-Free :
      (rounds : ℕ) (ms : Number) (coordinator : ReadExecutionCoordinator W Number)
      → RemainsFree (start_flight d query plan context rounds ms coordinator)
  unfolding start_flight
  start_flight-Free rounds ms coordinator =
      Triple-bind (λ _. OnLog (AtLease free))
        (sensed-AtLease free (λ _. OnLog (AtLease free)) d.create_owner_id)
        (λ owner_id.
          run_flight-Free d coordinator context (flight_request d query plan context owner_id ms)
            (flight_callbacks coordinator owner_id ms) rounds)

  require_coordinator-Free :
      (rounds : ℕ) (ms : Number) (coordinator : Option (ReadExecutionCoordinator W Number))
      → RemainsFree (require_coordinator d query plan context rounds ms coordinator)
  unfolding require_coordinator
  require_coordinator-Free rounds ms none = Triple-throw _ (λ s h. h)
  require_coordinator-Free rounds ms (some coordinator) = start_flight-Free rounds ms coordinator

  if-Free :
      (b : Bool) (m n : ReaderRun W A Number A)
      → RemainsFree m
      → RemainsFree n
      → RemainsFree (if b then m else n)
  if-Free true m n hm hn = hm
  if-Free false m n hm hn = hn

  coordinate-Free :
      (rounds : ℕ) (coordination : Option Number)
      → RemainsFree (coordinate d query plan context rounds coordination)
  unfolding coordinate
  coordinate-Free rounds none = execute_source_and_backfill-Free
  coordinate-Free rounds (some ms) =
      if-Free (local_end_index plan.levels == length plan.levels) _ _ (Triple-throw _ (λ s h. h)) (
        if-Free (d.numbers.is_finite ms && d.numbers.is_positive ms) _ _
          (require_coordinator-Free rounds ms d.coordinator) (Triple-throw _ (λ s h. h)))

  without_shared-Free :
      (rounds : ℕ) (shared : SharedReadResult A)
      → RemainsFree (without_shared d query plan context rounds shared)
  unfolding without_shared
  without_shared-Free rounds (hit value) = Triple-pure value (λ s h. h)
  without_shared-Free rounds miss = coordinate-Free rounds plan.coordination

  without_local-Free :
      (rounds : ℕ) (found : Option (ReadCacheHit A))
      → RemainsFree (without_local d query plan context rounds found)
  unfolding without_local
  without_local-Free rounds (some found) = backfill_hit-Remains free (tt, refl) found
  without_local-Free rounds none =
      Triple-bind (λ _. OnLog (AtLease free))
        (find_shared_cache_result-Remains free (tt, refl) (local_end_index plan.levels))
        (without_shared-Free rounds)

  find_local-Free : Remains free (tt, refl) (find_local d query plan context)
  find_local-Free =
      find_hit-Stays d free (scoped_key query plan) context
        (take (local_end_index plan.levels) plan.levels) 0

  execute_local_leader-Free :
      (rounds : ℕ) → RemainsFree (execute_local_leader d query plan context rounds)
  unfolding execute_local_leader
  execute_local_leader-Free rounds =
      Triple-bind (λ _. OnLog (AtLease free)) find_local-Free (without_local-Free rounds)

  join_or_lead-Free :
      (rounds : ℕ) (outcome : Option (Result ReaderError A))
      → RemainsFree (join_or_lead d query plan context rounds outcome)
  unfolding join_or_lead
  join_or_lead-Free rounds none = execute_local_leader-Free rounds
  join_or_lead-Free rounds (some outcome) =
      Triple-bind (λ _. OnLog (AtLease free))
        (reader_observe-AtLease d free (λ _. OnLog (AtLease free)) (local_inflight_joined context))
        (λ _. called-AtLease free (λ w. (outcome, w)) flight_joined (λ r. tt))

  after_local-Free :
      (rounds : ℕ) (found : Option (ReadCacheHit A))
      → RemainsFree (after_local d query plan context rounds found)
  unfolding after_local
  after_local-Free rounds (some found) = backfill_hit-Remains free (tt, refl) found
  after_local-Free rounds none =
      Triple-bind (λ _. OnLog (AtLease free))
        (sensed-AtLease free (λ _. OnLog (AtLease free)) (d.active_flight (scoped_key query plan)))
        (join_or_lead-Free rounds)

  pub execute_cached-Free : (rounds : ℕ) → RemainsFree (execute_cached d query plan context rounds)
  unfolding execute_cached
  execute_cached-Free rounds =
      Triple-bind (λ _. OnLog (AtLease free)) find_local-Free (after_local-Free rounds)
