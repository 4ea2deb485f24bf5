-- ===== src/Reader/Traversal.antt =====
-- packages/reader/src/lib/cache/read-cache-traversal.ts.
use event_driven_platform.Prelude.{ℕ, ◌+◌, true, false, Option, none, some, List, [], ◌∷◌, reverse}
use event_driven_platform.Effects.{pure, ◌>>=◌, ◌>>◌, attempt}
use event_driven_platform.Effects.Traced.{called}
use event_driven_platform.ReadCacheInMemory.{TenantScopedReadCacheKey, CacheReadResult}
use event_driven_platform.Reader.Errors.{ReaderError}
use event_driven_platform.Reader.Environment.{
  ReaderMethod, CacheScope, QueryCacheLevel, ReaderObservationContext, LookupOutcome,
  cache_lookup_completed, cache_population_completed, DefaultReaderDependencies, cache_answered,
  cache_written, ReaderRun, reader_now, observe_since,
}

pub record ReadCacheHit (A : Type 0) : Type 0 where
  pub index : ℕ
  pub value : A

abbrev pub lookup_outcome : {A : Type 0} → CacheReadResult A → LookupOutcome
lookup_outcome (CacheReadResult.hit v) = LookupOutcome.hit
lookup_outcome CacheReadResult.miss = LookupOutcome.miss
lookup_outcome (CacheReadResult.error e) = LookupOutcome.error

abbrev pub found_value : {A : Type 0} → CacheReadResult A → Option A
found_value (CacheReadResult.hit v) = some v
found_value CacheReadResult.miss = none
found_value (CacheReadResult.error e) = none

-- `levels.map((level, index) => ({ level, index: offset + index }))`
unfoldable pub indexed : {X : Type 0} → ℕ → List X → List (ℕ × X)
indexed i [] = []
indexed i (x ∷ xs) = (i, x) ∷ indexed (i + 1) xs

module _ {W A Number : Type 0} (d : DefaultReaderDependencies W A Number) where
  -- the lookup of one level: a reader that throws counts as a miss
  unfoldable pub look_up_level :
      TenantScopedReadCacheKey
      → ReaderObservationContext
      → ℕ
      → QueryCacheLevel W A
      → ReaderRun W A Number (Option A)
  unfolding reader_now called observe_since
  look_up_level key context index level = do
    started_at ← reader_now d
    attempt (called (level.reader key) (cache_answered index))
        (λ result. do
          observe_since d (cache_lookup_completed context level.scope index (lookup_outcome result))
              started_at
          pure (found_value result))
        (λ (_ : ReaderError). do
          observe_since d (cache_lookup_completed context level.scope index LookupOutcome.error)
              started_at
          pure none)

  -- the lookups end at the first hit
  unfoldable pub stop_at_hit :
      ℕ
      → ReaderRun W A Number (Option (ReadCacheHit A))
      → Option A
      → ReaderRun W A Number (Option (ReadCacheHit A))
  stop_at_hit index rest none = rest
  stop_at_hit index rest (some value) = pure (some (record { index = index; value = value }))

  -- ReadCacheTraversal.findHit, with the offset of the first level
  unfoldable pub find_hit :
      TenantScopedReadCacheKey
      → ReaderObservationContext
      → List (QueryCacheLevel W A)
      → (offset : ℕ) → ReaderRun W A Number (Option (ReadCacheHit A))
  unfolding look_up_level stop_at_hit
  find_hit key context [] offset = pure none
  find_hit key context (level ∷ levels) offset =
      look_up_level key context offset level
      >>= stop_at_hit offset (find_hit key context levels (offset + 1))

  -- the write to one level: a level without a writer is passed over, and a throw is dropped. `between`
  -- is what is done in the meantime, while the write is awaited, on a state of its own.
  unfoldable pub populate_writer :
      {S : Type 0}
      → (S → ReaderRun W A Number S)
      → TenantScopedReadCacheKey
      → ReaderObservationContext
      → A
      → ℕ
      → CacheScope
      → Option (TenantScopedReadCacheKey → A → ReaderMethod W (Unit {0}))
      → S
      → ReaderRun W A Number S
  unfolding reader_now called observe_since
  populate_writer between key context value index scope none state = pure state
  populate_writer between key context value index scope (some write) state = do
    started_at ← reader_now d
    attempt (called (write key value) (cache_written index value))
        (λ _. do
          state' ← between state
          observe_since d (cache_population_completed context scope index true) started_at
          pure state')
        (λ (_ : ReaderError). do
          state' ← between state
          observe_since d (cache_population_completed context scope index false) started_at
          pure state')

  unfoldable pub populate_each :
      {S : Type 0}
      → (S → ReaderRun W A Number S)
      → TenantScopedReadCacheKey
      → ReaderObservationContext
      → A
      → List (ℕ × QueryCacheLevel W A)
      → S
      → ReaderRun W A Number S
  unfolding populate_writer
  populate_each between key context value [] state = pure state
  populate_each between key context value ((index, level) ∷ rest) state =
      populate_writer between key context value index level.scope level.writer state >>= λ state'.
      populate_each between key context value rest state'

  -- ReadCacheTraversal.populate: from the last level to the first, one write after the other
  unfoldable pub populate_between :
      {S : Type 0}
      → (S → ReaderRun W A Number S)
      → TenantScopedReadCacheKey
      → ReaderObservationContext
      → List (QueryCacheLevel W A)
      → A
      → S
      → ReaderRun W A Number S
  unfolding populate_each indexed
  populate_between between key context levels value state =
      populate_each between key context value (reverse (indexed 0 levels)) state

  -- ReadCacheTraversal.populate, with nothing done in the meantime
  unfoldable pub populate :
      TenantScopedReadCacheKey
      → ReaderObservationContext
      → List (QueryCacheLevel W A)
      → A
      → ReaderRun W A Number (Unit {0})
  unfolding populate_between
  populate key context levels value = populate_between pure key context levels value tt
