-- ===== src/Reader/Lease/Reads.antt =====
-- The source, its retries and the cache levels, under the lease protocol.
use event_driven_platform.Prelude.{
  ℕ, ◌+◌, true, false, Option, none, some, ◌≡◌, refl, sym, subst, List, [], ◌∷◌, reverse,
}
use event_driven_platform.Effects.{ok, err, pure, ◌>>=◌}
use event_driven_platform.Effects.Hoare.{Triple, Triple-bind, Triple-attempt, Triple-pure, weaken}
use event_driven_platform.Effects.Traced.{Traced}
use event_driven_platform.Command.{RetryOptions}
use event_driven_platform.Execution.{Timestamp}
use event_driven_platform.Reader.Errors.{ReaderError}
use event_driven_platform.ReadCacheInMemory.{TenantScopedReadCacheKey}
use event_driven_platform.Reader.Environment.{
  Read, ReaderMethod, CacheScope, QueryCacheLevel, ReaderObservationContext, LookupOutcome,
  ReaderObservation, ReaderCall, observed, source_answered, retry_waited, cache_answered,
  cache_written, cache_lookup_completed, cache_population_completed, DefaultReaderDependencies,
  ReaderRun, observe_since,
}
use event_driven_platform.Reader.Lease.{LeasePhase, sourced, written, IsWritable, AtLease}
use event_driven_platform.Reader.Lease.Steps.{
  OnLog, AtLease-next, called-AtLease, reader_now-AtLease, observe_since-AtLease,
}
use event_driven_platform.Reader.Attempts.{attempt_limit, AttemptLaws, source_with_retry-Keeps}
use event_driven_platform.Reader.Source.{execute_source, execute_read_with_retry}
use event_driven_platform.Reader.Traversal.{
  ReadCacheHit, lookup_outcome, found_value, indexed, look_up_level, stop_at_hit, find_hit,
  populate_writer, populate_each, populate_between, populate,
}

module _ {W A Number : Type 0} (d : DefaultReaderDependencies W A Number) (p : LeasePhase)
    (context : ReaderObservationContext) where
  abbrev Here : Traced W (ReaderCall A Number) → Type 0
  Here = OnLog (AtLease p)

  abbrev Sourced : Traced W (ReaderCall A Number) → Type 0
  Sourced = OnLog (AtLease (sourced p))

  -- work that comes back sourced, or fails where it was
  abbrev pub Sources : ReaderRun W A Number A → Type 0
  Sources work = Triple Here work (λ _. Sourced) (λ _. Here)

  -- the lease protocol does not mind how often the source is called
  lease_laws :
      (limit : ℕ)
      → AttemptLaws {A = A} {Number = Number} limit
          (λ n. AtLease p)
          (AtLease (sourced p))
          (AtLease p)
  lease_laws limit = record {
    observed_before = λ n t o h. AtLease-next p p t (observed o) h tt refl;
    observed_after = λ t o h. AtLease-next (sourced p) (sourced p) t (observed o) h tt refl;
    waited = λ n t delay_ms h. AtLease-next p p t (retry_waited delay_ms) h tt refl;
    returned = λ n t a l h. AtLease-next p (sourced p) t (source_answered (ok a)) h tt refl;
    threw = λ n t e l h. AtLease-next p p t (source_answered (err e)) h tt refl;
    gave_up = λ n t l h. h;
  }

  pub execute_read_with_retry-Sources :
      (retry : Option (RetryOptions Number)) (read : Read)
      → Sources (execute_read_with_retry d context retry (execute_source d read context))
  execute_read_with_retry-Sources retry read =
      source_with_retry-Keeps d context retry (λ n. AtLease p) (AtLease (sourced p)) (AtLease p)
        (lease_laws (attempt_limit retry)) read

module _ {W A Number : Type 0} (d : DefaultReaderDependencies W A Number) (p : LeasePhase)
    (key : TenantScopedReadCacheKey) (context : ReaderObservationContext) where
  abbrev pub Stays : {B : Type 0} → ReaderRun W A Number B → Type 0
  Stays work = Triple (OnLog (AtLease p)) work (λ _. OnLog (AtLease p)) (λ _. OnLog (AtLease p))

  look_up_level-Stays :
      (index : ℕ) (level : QueryCacheLevel W A) → Stays (look_up_level d key context index level)
  unfolding look_up_level
  look_up_level-Stays index level =
      let here : Traced W (ReaderCall A Number) → Type 0 = OnLog (AtLease p) in
      Triple-bind (λ _. here) (reader_now-AtLease d p (λ _. here))
        (λ t.
          Triple-attempt (λ _. here) (λ _. here)
            (called-AtLease p (level.reader key) (cache_answered index) (λ r. tt))
            (λ result.
              Triple-bind (λ _. here)
                (observe_since-AtLease d p (λ _. here)
                  (cache_lookup_completed context level.scope index (lookup_outcome result)) t)
                (λ _. Triple-pure (found_value result) (λ s h. h)))
            (λ e.
              Triple-bind (λ _. here)
                (observe_since-AtLease d p (λ _. here)
                  (cache_lookup_completed context level.scope index LookupOutcome.error) t)
                (λ _. Triple-pure none (λ s h. h))))

  stop_at_hit-Stays :
      (index : ℕ) (rest : ReaderRun W A Number (Option (ReadCacheHit A))) (found : Option A)
      → Stays rest
      → Stays (stop_at_hit d index rest found)
  unfolding stop_at_hit
  stop_at_hit-Stays index rest none h = h
  stop_at_hit-Stays index rest (some value) h = Triple-pure _ (λ s h. h)

  pub find_hit-Stays :
      (levels : List (QueryCacheLevel W A)) (offset : ℕ)
      → Stays (find_hit d key context levels offset)
  unfolding find_hit
  find_hit-Stays [] offset = Triple-pure none (λ s h. h)
  find_hit-Stays (level ∷ levels) offset =
      Triple-bind (λ _. OnLog (AtLease p)) (look_up_level-Stays offset level)
        (λ found.
          stop_at_hit-Stays offset (find_hit d key context levels (offset + 1)) found
            (find_hit-Stays levels (offset + 1)))

-- a phase where levels are written, and that the writes do not change
abbrev pub IsStill : LeasePhase → Type 0
IsStill p = IsWritable p × (written p ≡ p)

-- a log at one of the phases that a state goes with
abbrev pub AtOneOf :
    {S A Number : Type 0} → (S → LeasePhase → Type 0) → S → List (ReaderCall A Number) → Type 0
AtOneOf Fits state t = (q : LeasePhase) × (Fits state q) × (AtLease q t)

module _ {W A Number S : Type 0} (d : DefaultReaderDependencies W A Number)
    (between : S → ReaderRun W A Number S) (Fits : S → LeasePhase → Type 0)
    (R : ReaderError → Traced W (ReaderCall A Number) → Type 0) where
  -- what is done while a write is awaited leads from a fitting phase to a fitting phase
  pub record WriteLaws : Type 0 where
    pub writable : (state : S) (q : LeasePhase) → Fits state q → IsWritable q
    pub meantime :
        (state : S) (q : LeasePhase)
        → Fits state q
        → Triple
            (OnLog (AtLease (written q)))
            (between state)
            (λ state'. OnLog (AtOneOf Fits state'))
            R

  -- work that leads from each fitting phase to a fitting phase
  abbrev pub Writes : (S → ReaderRun W A Number S) → Type 0
  Writes work =
      (state : S) (q : LeasePhase)
      → Fits state q
      → Triple (OnLog (AtLease q)) (work state) (λ state'. OnLog (AtOneOf Fits state')) R

  at_one_of :
      {work : S → ReaderRun W A Number S} (state : S)
      → Writes work
      → Triple (OnLog (AtOneOf Fits state)) (work state) (λ state'. OnLog (AtOneOf Fits state')) R
  at_one_of state h = record { at = λ s a. (h state a.0 a.1).at s a.2 }

  module _ (laws : WriteLaws) (key : TenantScopedReadCacheKey) (context : ReaderObservationContext)
      (value : A) where
    after_write-Writes :
        (o : ℕ → ReaderObservation Number) (t : Timestamp) (state : S) (q : LeasePhase)
        → Fits state q
        → Triple
            (OnLog (AtLease (written q)))
            (between state >>= λ state'. observe_since d o t >>= λ _. pure state')
            (λ state'. OnLog (AtOneOf Fits state'))
            R
    after_write-Writes o t state q f =
        Triple-bind (λ state'. OnLog (AtOneOf Fits state')) (laws.meantime state q f)
          (λ state'. at_one_of {work = λ x. observe_since d o t >>= λ _. pure x} state' (λ x p g.
            Triple-bind (λ _. OnLog (AtLease p)) (observe_since-AtLease d p R o t)
              (λ _. Triple-pure x (λ s a. (p, g, a)))))

    populate_writer-Writes :
        (index : ℕ) (scope : CacheScope)
        (writer : Option (TenantScopedReadCacheKey → A → ReaderMethod W (Unit {0})))
        → Writes (populate_writer d between key context value index scope writer)
    unfolding populate_writer
    populate_writer-Writes index scope none state q f = Triple-pure state (λ s a. (q, f, a))
    populate_writer-Writes index scope (some write) state q f =
        Triple-bind (λ _. OnLog (AtLease q)) (reader_now-AtLease d q R)
          (λ t.
            Triple-attempt (λ _. OnLog (AtLease (written q))) (λ _. OnLog (AtLease (written q)))
              (called-AtLease q (write key value) (cache_written index value)
                (λ r. laws.writable state q f))
              (λ _.
                after_write-Writes (cache_population_completed context scope index true) t state q
                  f)
              (λ _.
                after_write-Writes (cache_population_completed context scope index false) t state q
                  f))

    populate_each-Writes :
        (levels : List (ℕ × QueryCacheLevel W A))
        → Writes (populate_each d between key context value levels)
    unfolding populate_each
    populate_each-Writes [] state q f = Triple-pure state (λ s a. (q, f, a))
    populate_each-Writes ((index, level) ∷ rest) state q f =
        Triple-bind (λ state'. OnLog (AtOneOf Fits state'))
          (populate_writer-Writes index level.scope level.writer state q f)
          (λ state'. at_one_of state' (populate_each-Writes rest))

    pub populate_between-Writes :
        (levels : List (QueryCacheLevel W A))
        → Writes (populate_between d between key context levels value)
    unfolding populate_between
    populate_between-Writes levels = populate_each-Writes (reverse (indexed 0 levels))

module _ {W A Number : Type 0} (d : DefaultReaderDependencies W A Number) (p : LeasePhase)
    (key : TenantScopedReadCacheKey) (context : ReaderObservationContext) where
  pub populate-Stays :
      IsStill p
      → (levels : List (QueryCacheLevel W A)) (value : A)
      → Stays d p key context (populate d key context levels value)
  unfolding populate
  populate-Stays w levels value =
      let there : ReaderError → Traced W (ReaderCall A Number) → Type 0 = λ _. OnLog (AtLease p) in
      let laws : WriteLaws {S = Unit {0}} d pure (λ _ q. q ≡ p) there = record {
        writable = λ state q e. rw e w.0;
        meantime = λ state q e. Triple-pure state (λ s a. (p, refl, rw (sym w.1, sym e) a));
      } in
      weaken
        (populate_between-Writes d pure (λ _ q. q ≡ p) there laws key context value levels tt p
          refl)
        (λ s a. a) (λ _ s a. subst (λ q. AtLease q s.calls) a.1 a.2) (λ e s a. a)
