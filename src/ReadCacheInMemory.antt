-- ===== src/ReadCacheInMemory.antt =====
-- packages/read-cache-in-memory: a cache of a bounded number of entries that expire, and the keys of
-- packages/query. Times are whole milliseconds.
use event_driven_platform.Prelude.{
  ℕ, zero, suc, ◌+◌, Bool, true, false, ltb, leb, if◌then◌else◌, List, [], ◌∷◌, Option, none, some,
  Text, text, length,
}
use event_driven_platform.Effects.{Result, ok, err}
use event_driven_platform.Domain.{Reference}
use event_driven_platform.Execution.{Thrown}
use event_driven_platform.JavaScript.{Entries, map_get, map_delete, map_set, stringify}
pub mod Laws
pub mod Validity
pub mod Keys
pub mod Isolation
mod Examples

pub record ReadCacheKey : Type 0 where
  pub namespace : Text
  pub version : Text
  pub partition : Text
  pub value : Text

pub record TenantScopedReadCacheKey : Type 0 where
  pub tenant : Reference
  pub key : ReadCacheKey

pub data CacheReadResult (A : Type 0) : Type 0 where
  hit : (value : A) → CacheReadResult A
  miss : CacheReadResult A
  error : Thrown → CacheReadResult A

pub record InMemoryReadCacheOptions : Type 0 where
  pub capacity : ℕ
  pub ttl_ms : ℕ

pub record InMemoryReadCacheEntry (A : Type 0) : Type 0 where
  pub value : A
  pub expires_at : ℕ

unfoldable pub encode_read_cache_key : TenantScopedReadCacheKey → Text
unfolding stringify
encode_read_cache_key k = stringify (
    k.tenant.type ∷ k.tenant.id ∷ k.key.namespace ∷ k.key.version ∷ k.key.partition ∷ k.key.value
    ∷ [])

-- the world of the clock, and the map of the cache
pub record InMemoryReadCache (W A : Type 0) : Type 0 where
  pub world : W
  pub entries : Entries (InMemoryReadCacheEntry A)

-- the constructor: a RangeError, with its message, for options out of range
unfoldable pub create_in_memory_read_cache :
    {W A : Type 0} → InMemoryReadCacheOptions → W → Result Text (InMemoryReadCache W A)
create_in_memory_read_cache options w =
    if leb options.capacity 0
    then err (text "InMemory read cache capacity must be a positive integer.")
    else if leb options.ttl_ms 0
    then err (text "InMemory read cache ttlMs must be greater than zero.")
    else ok (record { world = w; entries = [] })

module _ {A : Type 0} where
  -- the `while` of `write`: the oldest keys go until the capacity is kept
  unfoldable pub evict_oldest :
      (capacity fuel : ℕ) → Entries (InMemoryReadCacheEntry A) → Entries (InMemoryReadCacheEntry A)
  unfolding map_delete
  evict_oldest capacity zero entries = entries
  evict_oldest capacity (suc fuel) [] = []
  evict_oldest capacity (suc fuel) (e ∷ rest) =
      let evicted = evict_oldest capacity fuel (map_delete e.0 (e ∷ rest)) in
      if ltb capacity (length (e ∷ rest)) then evicted else e ∷ rest

  -- the `for` of `evictExpiredEntries`, over the entries to come
  unfoldable pub sweep :
      (now : ℕ)
      → (todo : Entries (InMemoryReadCacheEntry A)) → Entries (InMemoryReadCacheEntry A)
      → Entries (InMemoryReadCacheEntry A)
  unfolding map_delete
  sweep now [] entries = entries
  sweep now (e ∷ todo) entries =
      sweep now todo (if leb e.1.expires_at now then map_delete e.0 entries else entries)

module _ {W A : Type 0} (clock : W → ℕ × W) (options : InMemoryReadCacheOptions) where
  -- what `read` does with the entry of the key, if there is one; only then the clock is read
  unfoldable pub read_entry :
      (identity : Text)
      → Option (InMemoryReadCacheEntry A)
      → InMemoryReadCache W A
      → CacheReadResult A × InMemoryReadCache W A
  unfolding map_delete
  read_entry identity none cache = (miss, cache)
  read_entry identity (some entry) cache =
      let (now, w) = clock cache.world in
      if leb entry.expires_at now
      then (miss, record { world = w; entries = map_delete identity cache.entries })
      else (hit entry.value, record { world = w; entries = cache.entries })

  unfoldable pub read :
      TenantScopedReadCacheKey → InMemoryReadCache W A → CacheReadResult A × InMemoryReadCache W A
  unfolding encode_read_cache_key map_get read_entry
  read key cache =
      let identity = encode_read_cache_key key in
      read_entry identity (map_get identity cache.entries) cache

  unfoldable pub write :
      TenantScopedReadCacheKey → A → InMemoryReadCache W A → InMemoryReadCache W A
  unfolding encode_read_cache_key map_delete map_set evict_oldest
  write key value cache =
      let identity = encode_read_cache_key key in
      let deleted = map_delete identity cache.entries in
      let (now, w) = clock cache.world in
      let written =
        map_set identity (record { value = value; expires_at = now + options.ttl_ms }) deleted in
      record { world = w; entries = evict_oldest options.capacity (length written) written }

  unfoldable pub evict_expired_entries : InMemoryReadCache W A → InMemoryReadCache W A
  unfolding sweep
  evict_expired_entries cache =
      let (now, w) = clock cache.world in
      record { world = w; entries = sweep now cache.entries cache.entries }

  -- the getter `size`
  unfoldable pub size : InMemoryReadCache W A → ℕ × InMemoryReadCache W A
  unfolding evict_expired_entries
  size cache = let evicted = evict_expired_entries cache in (length evicted.entries, evicted)
