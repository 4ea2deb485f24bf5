-- ===== src/Reader/Cached.antt =====
-- packages/reader/src/lib/cache/cached-read-executor.ts.
use event_driven_platform.Prelude.{
  ℕ, suc, ◌==◌, ◌&&◌, if◌then◌else◌, Option, none, some, List, [], ◌∷◌, length, take, drop, Text,
  text,
}
use event_driven_platform.Effects.{Result, pure, throw, ◌>>=◌, ◌>>◌}
use event_driven_platform.Effects.Traced.{called, sensed}
use event_driven_platform.Command.{RetryOptions}
use event_driven_platform.ReadCacheInMemory.{TenantScopedReadCacheKey}
use event_driven_platform.Reader.Errors.{ReaderError, coordination_not_configured}
use event_driven_platform.Reader.Environment.{
  local, shared, QueryCacheLevel, QueryCachePlan, Query, ReaderObservationContext,
  ReadExecutionCoordinator, local_inflight_joined, DefaultReaderDependencies, flight_joined,
  ReaderRun, reader_observe,
}
use event_driven_platform.Reader.Flight.{
  SharedReadResult, hit, miss, DistributedReadFlightRequest, run_flight,
}
use event_driven_platform.Reader.Source.{execute_source, execute_read_with_retry}
use event_driven_platform.Reader.Traversal.{ReadCacheHit, find_hit, populate_between, populate}

-- `levels.findIndex((level) => level.scope === 'shared')`, or the number of the levels
unfoldable pub local_end_index : {W A : Type 0} → List (QueryCacheLevel W A) → ℕ
local_end_index [] = 0
local_end_index (level ∷ levels) =
    let rest = local_end_index levels in elim level.scope [ shared ↦ 0 | local ↦ suc rest ]

abbrev pub scoped_key :
    {W A Number : Type 0} → Query W A Number → QueryCachePlan W A Number → TenantScopedReadCacheKey
scoped_key query plan = record { tenant = query.read.tenant; key = plan.key }

abbrev pub query_retry : {W A Number : Type 0} → Query W A Number → Option (RetryOptions Number)
query_retry query = elim query.options [ none ↦ none | some o ↦ o.retry ]

module _ {W A Number : Type 0} (d : DefaultReaderDependencies W A Number) (query : Query W A Number)
    (plan : QueryCachePlan W A Number) (context : ReaderObservationContext) where
  unfoldable pub execute_source_with_retry : ReaderRun W A Number A
  unfolding execute_read_with_retry execute_source
  execute_source_with_retry =
      execute_read_with_retry d context (query_retry query) (execute_source d query.read context)

  -- a hit is written to the levels before it
  unfoldable pub backfill_hit : ReadCacheHit A → ReaderRun W A Number A
  unfolding populate
  backfill_hit found = do
    populate d (scoped_key query plan) context (take found.index plan.levels) found.value
    pure found.value

  unfoldable pub execute_source_and_backfill : ReaderRun W A Number A
  unfolding execute_source_with_retry populate
  execute_source_and_backfill = do
    result ← execute_source_with_retry
    populate d (scoped_key query plan) context plan.levels result
    pure result

  unfoldable pub shared_result : Option (ReadCacheHit A) → ReaderRun W A Number (SharedReadResult A)
  unfolding backfill_hit
  shared_result none = pure miss
  shared_result (some found) = do value ← backfill_hit found; pure (hit value)

  unfoldable pub find_shared_cache_result : ℕ → ReaderRun W A Number (SharedReadResult A)
  unfolding find_hit shared_result
  find_shared_cache_result first_shared_index =
      find_hit d (scoped_key query plan) context (drop first_shared_index plan.levels)
        first_shared_index
      >>= shared_result

  abbrev pub flight_request : Text → Number → DistributedReadFlightRequest W A Number
  flight_request owner_id lease_duration_ms = record {
    key = scoped_key query plan;
    owner_id = owner_id;
    lease_duration_ms = lease_duration_ms;
    read_shared = find_shared_cache_result (local_end_index plan.levels);
    execute_source = execute_source_with_retry;
    publish_source_result =
        λ between. populate_between d between (scoped_key query plan) context plan.levels;
  }

  unfoldable pub start_flight :
      ℕ → Number → ReadExecutionCoordinator W Number → ReaderRun W A Number A
  unfolding sensed run_flight find_shared_cache_result execute_source_with_retry populate_between
      local_end_index
  start_flight rounds lease_duration_ms coordinator = do
    owner_id ← sensed d.create_owner_id
    run_flight d coordinator context (flight_request owner_id lease_duration_ms) rounds

  unfoldable pub require_coordinator :
      ℕ → Number → Option (ReadExecutionCoordinator W Number) → ReaderRun W A Number A
  unfolding start_flight
  require_coordinator rounds lease_duration_ms none = throw (
      coordination_not_configured
        (text "ReadExecutionCoordinator dependency is required when coordination is enabled"))
  require_coordinator rounds lease_duration_ms (some coordinator) =
      start_flight rounds lease_duration_ms coordinator

  -- the checks before a coordinated flight
  unfoldable pub coordinate : ℕ → Option Number → ReaderRun W A Number A
  unfolding execute_source_and_backfill require_coordinator local_end_index
  coordinate rounds none = execute_source_and_backfill
  coordinate rounds (some lease_duration_ms) =
      if local_end_index plan.levels == length plan.levels
      then throw (
          coordination_not_configured
            (text "a shared cache level is required as the distributed rendezvous point"))
      else if d.numbers.is_finite lease_duration_ms && d.numbers.is_positive lease_duration_ms
      then require_coordinator rounds lease_duration_ms d.coordinator
      else throw
          (coordination_not_configured (text "leaseDurationMs must be a positive finite number"))

  unfoldable pub without_shared : ℕ → SharedReadResult A → ReaderRun W A Number A
  unfolding coordinate
  without_shared rounds (hit value) = pure value
  without_shared rounds miss = coordinate rounds plan.coordination

  unfoldable pub without_local : ℕ → Option (ReadCacheHit A) → ReaderRun W A Number A
  unfolding backfill_hit find_shared_cache_result without_shared local_end_index
  without_local rounds (some found) = backfill_hit found
  without_local rounds none =
      find_shared_cache_result (local_end_index plan.levels) >>= without_shared rounds

  abbrev pub find_local : ReaderRun W A Number (Option (ReadCacheHit A))
  find_local =
      find_hit d (scoped_key query plan) context (take (local_end_index plan.levels) plan.levels) 0

  -- executeLocalLeader: the local levels are looked up again
  unfoldable pub execute_local_leader : ℕ → ReaderRun W A Number A
  unfolding find_hit without_local local_end_index
  execute_local_leader rounds = find_local >>= without_local rounds

  -- LocalReadInFlight.run, for the caller: an active flight is joined, or this one is led
  unfoldable pub join_or_lead : ℕ → Option (Result ReaderError A) → ReaderRun W A Number A
  unfolding execute_local_leader reader_observe called
  join_or_lead rounds none = execute_local_leader rounds
  join_or_lead rounds (some outcome) = do
    reader_observe d (local_inflight_joined context)
    called (λ w. (outcome, w)) flight_joined

  unfoldable pub after_local : ℕ → Option (ReadCacheHit A) → ReaderRun W A Number A
  unfolding backfill_hit sensed join_or_lead
  after_local rounds (some found) = backfill_hit found
  after_local rounds none = sensed (d.active_flight (scoped_key query plan)) >>= join_or_lead rounds

  -- CachedReadExecutor.execute
  unfoldable pub execute_cached : (rounds : ℕ) → ReaderRun W A Number A
  unfolding find_hit after_local local_end_index
  execute_cached rounds = find_local >>= after_local rounds
