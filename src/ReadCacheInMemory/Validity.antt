-- ===== src/ReadCacheInMemory/Validity.antt =====
-- The in-memory read cache, from its construction on, under any sequence of operations.
use event_driven_platform.Prelude.{
  ℕ, ◌+◌, ◌-◌, ◌≤◌, false, Bool-cases, leb, ◌≡◌, refl, [], ◌∷◌, ◌++◌, Option, none, some, Text,
  length, drop, length-append, arith, inl, inr, if◌then◌else◌,
}
use event_driven_platform.Effects.{ok}
use event_driven_platform.JavaScript.{Entries, map_get, map_has, map_delete}
use event_driven_platform.JavaScript.Maps.{
  Distinct, delete-Distinct, has-delete_self, get-last, append-Distinct,
}
use event_driven_platform.ReadCacheInMemory.Laws.{write-entries, sweep-live, live}
use event_driven_platform.ReadCacheInMemory.Laws.Drops.{
  drop-length, drop-append, drop-Distinct, has-drop,
}
use event_driven_platform.ReadCacheInMemory.{
  InMemoryReadCacheEntry, InMemoryReadCacheOptions, InMemoryReadCache, TenantScopedReadCacheKey,
  hit, miss, encode_read_cache_key, create_in_memory_read_cache, read_entry, read, write, size,
}

module _ {W A : Type 0} (clock : W → ℕ × W) (options : InMemoryReadCacheOptions) where
  -- distinct keys, and no more entries than the capacity
  abbrev pub IsValid : InMemoryReadCache W A → Type 0
  IsValid cache = Distinct cache.entries × (length cache.entries ≤ options.capacity)

  -- the caches that a construction and operations lead to; the world may change between operations
  pub data Reachable : InMemoryReadCache W A → Type 0 where
    created :
        (w : W) (cache : InMemoryReadCache W A)
        → create_in_memory_read_cache options w ≡ ok cache
        → Reachable cache
    passed :
        (w : W) (cache : InMemoryReadCache W A)
        → Reachable cache
        → Reachable (record { world = w; entries = cache.entries })
    was_read :
        (key : TenantScopedReadCacheKey) (cache : InMemoryReadCache W A)
        → Reachable cache
        → Reachable (read clock options key cache).1
    written :
        (key : TenantScopedReadCacheKey) (a : A) (cache : InMemoryReadCache W A)
        → Reachable cache
        → Reachable (write clock options key a cache)
    was_measured :
        (cache : InMemoryReadCache W A) → Reachable cache → Reachable (size clock options cache).1

delete-shorter {ℓ} : {V : Type ℓ} (k : Text) (m : Entries V) → length (map_delete k m) ≤ length m
unfolding map_delete
delete-shorter k [] = omega arith
delete-shorter k (e ∷ m) = ground (arith, delete-shorter k m)

live-shorter :
    {A : Type 0} (now : ℕ) (m : Entries (InMemoryReadCacheEntry A)) → length (live now m) ≤ length m
live-shorter now [] = omega arith
live-shorter now (e ∷ m) = ground (arith, live-shorter now m)

live-has :
    {A : Type 0} (now : ℕ) (k : Text) (m : Entries (InMemoryReadCacheEntry A))
    → map_has k m ≡ false
    → map_has k (live now m) ≡ false
unfolding map_has
live-has now k [] h = refl
live-has now k (e ∷ m) h = ground (arith, live-has now k m)

live-Distinct :
    {A : Type 0} (now : ℕ) (m : Entries (InMemoryReadCacheEntry A))
    → Distinct m
    → Distinct (live now m)
live-Distinct now [] h = tt
live-Distinct now (e ∷ m) h = elim (Bool-cases (leb e.1.expires_at now)) [
  | inl t ↦ rw t (live-Distinct now m h.1)
  | inr f ↦ rw f (live-has now e.0 m h.0, live-Distinct now m h.1)
]

module _ {W A : Type 0} (clock : W → ℕ × W) (options : InMemoryReadCacheOptions) where
  created-entries :
      (w : W) (cache : InMemoryReadCache W A)
      → create_in_memory_read_cache options w ≡ ok cache
      → cache.entries ≡ []
  unfolding create_in_memory_read_cache
  created-entries w cache h = ground arith

  create-IsValid :
      (w : W) (cache : InMemoryReadCache W A)
      → create_in_memory_read_cache options w ≡ ok cache
      → IsValid clock options cache
  unfolding create_in_memory_read_cache
  create-IsValid w cache h = rw (created-entries w cache h) (tt, omega arith)

  read_entry-IsValid :
      (identity : Text) (found : Option (InMemoryReadCacheEntry A)) (cache : InMemoryReadCache W A)
      → IsValid clock options cache
      → IsValid clock options (read_entry clock options identity found cache).1
  unfolding read_entry
  read_entry-IsValid identity none cache h = h
  read_entry-IsValid identity (some entry) cache h =
      elim (Bool-cases (leb entry.expires_at (clock cache.world).0)) [
        | inl t ↦ rw t (
          delete-Distinct identity cache.entries h.0,
          omega (arith, delete-shorter identity cache.entries, h.1),
        )
        | inr f ↦ rw f h
      ]

  write-IsValid :
      (key : TenantScopedReadCacheKey) (a : A) (cache : InMemoryReadCache W A)
      → IsValid clock options cache
      → IsValid clock options (write clock options key a cache)
  write-IsValid key a cache h =
      let identity = encode_read_cache_key key in
      let kept = map_delete identity cache.entries in
      let entry : InMemoryReadCacheEntry A = record {
        value = a;
        expires_at = (clock cache.world).0 + options.ttl_ms;
      } in
      let all : Entries (InMemoryReadCacheEntry A) = kept ++ (identity, entry) ∷ [] in
      let n = length kept + 1 - options.capacity in
      let sizes : length all ≡ length kept + 1 = length-append kept ((identity, entry) ∷ []) in
      rw (write-entries clock options key a cache h.0) (
        drop-Distinct n all (
            append-Distinct identity entry kept (delete-Distinct identity cache.entries h.0)
              (has-delete_self identity cache.entries h.0)),
        omega (arith, drop-length n all, sizes),
      )

  size-IsValid :
      (cache : InMemoryReadCache W A)
      → IsValid clock options cache
      → IsValid clock options (size clock options cache).1
  unfolding size
  size-IsValid cache h =
      let now = (clock cache.world).0 in
      let swept = sweep-live now [] cache.entries h.0 in
      rw swept
        (live-Distinct now cache.entries h.0, omega (arith, live-shorter now cache.entries, h.1))

  read-IsValid :
      (key : TenantScopedReadCacheKey) (cache : InMemoryReadCache W A)
      → IsValid clock options cache
      → IsValid clock options (read clock options key cache).1
  unfolding read
  read-IsValid key cache h =
      let identity = encode_read_cache_key key in
      read_entry-IsValid identity (map_get identity cache.entries) cache h

  -- Every cache that a construction and any sequence of reads, writes and size queries lead to, the
  -- clock being any function of the world, has distinct keys and at most as many entries as its
  -- capacity.
  pub Reachable-IsValid :
      (cache : InMemoryReadCache W A) → Reachable clock options cache → IsValid clock options cache
  Reachable-IsValid _ (created w cache made) = create-IsValid w cache made
  Reachable-IsValid _ (passed w cache r) = Reachable-IsValid cache r
  Reachable-IsValid _ (was_read key cache r) = read-IsValid key cache (Reachable-IsValid cache r)
  Reachable-IsValid _ (written key a cache r) =
      write-IsValid key a cache (Reachable-IsValid cache r)
  Reachable-IsValid _ (was_measured cache r) = size-IsValid cache (Reachable-IsValid cache r)

  pub read_entry_lem :
      (identity : Text) (entry : InMemoryReadCacheEntry A) (w : W)
      (m : Entries (InMemoryReadCacheEntry A))
      → (read_entry clock options identity (some entry) (record { world = w; entries = m })).0
        ≡ (if leb entry.expires_at (clock w).0 then miss else hit entry.value)
  unfolding read_entry
  read_entry_lem identity entry w m = ground arith

  get-write :
      (key : TenantScopedReadCacheKey) (a : A) (cache : InMemoryReadCache W A)
      → Distinct cache.entries
      → 1 ≤ options.capacity
      → map_get (encode_read_cache_key key) (write clock options key a cache).entries
        ≡ some (record { value = a; expires_at = (clock cache.world).0 + options.ttl_ms })
  get-write key a cache d h =
      let identity = encode_read_cache_key key in
      let kept = map_delete identity cache.entries in
      let entry : InMemoryReadCacheEntry A = record {
        value = a;
        expires_at = (clock cache.world).0 + options.ttl_ms;
      } in
      let n = length kept + 1 - options.capacity in
      rw (write-entries clock options key a cache d) (
        rw (drop-append n kept ((identity, entry) ∷ []) (omega arith)) (
          get-last identity entry (drop n kept)
            (has-drop identity n kept (has-delete_self identity cache.entries d))))

  -- In a cache with a positive capacity and distinct keys, a read of the key that was last
  -- written, with no other operation on the cache in between, is a hit with the value written
  -- until its time to live is over, and a miss from then on.
  pub read-write :
      (key : TenantScopedReadCacheKey) (a : A) (cache : InMemoryReadCache W A) (w : W)
      → Distinct cache.entries
      → 1 ≤ options.capacity
      → (read clock options key
          (record { world = w; entries = (write clock options key a cache).entries })).0
        ≡ (if leb ((clock cache.world).0 + options.ttl_ms) (clock w).0 then miss else hit a)
  unfolding read
  read-write key a cache w d h = rw (get-write key a cache d h) (
      read_entry_lem (encode_read_cache_key key)
        (record { value = a; expires_at = (clock cache.world).0 + options.ttl_ms }) w
        (write clock options key a cache).entries)

  -- The size of a cache with distinct keys is the number of its entries that have not expired; just
  -- these are kept, in their order.
  pub size-live :
      (cache : InMemoryReadCache W A)
      → Distinct cache.entries
      → let (now, w) = clock cache.world in
        let alive = live now cache.entries in
        size clock options cache ≡ (length alive, record { world = w; entries = alive })
  unfolding size
  size-live cache d = rw (sweep-live (clock cache.world).0 [] cache.entries d) refl
