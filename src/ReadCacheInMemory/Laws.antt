-- ===== src/ReadCacheInMemory/Laws.antt =====
-- What the operations of the in-memory read cache do to its entries.
use event_driven_platform.Prelude.{
  ℕ, zero, suc, ◌+◌, ◌-◌, ◌≤◌, Bool, true, false, not, Bool-cases, ltb, ltb→lt, leb, if◌then◌else◌,
  ◌≡◌, refl, sym, ap, ◌∙◌, subst, List, [], ◌∷◌, ◌++◌, Option, none, some, Text, length, drop,
  length-append, arith, inl, inr,
}
use event_driven_platform.JavaScript.{same, Entries, map_get, map_has, map_delete, map_set}
use event_driven_platform.JavaScript.Maps.{
  Distinct, delete-absent, delete-first, has-delete, delete-Distinct, has-delete_self, set-absent,
  get-last, append-Distinct, delete-middle, same_refl,
}
use event_driven_platform.ReadCacheInMemory.Laws.Drops.{
  drop-length, drop-later, drop-none, drop-append, drop-Distinct, has-drop,
}
use event_driven_platform.ReadCacheInMemory.{
  InMemoryReadCacheEntry, InMemoryReadCacheOptions, InMemoryReadCache, TenantScopedReadCacheKey,
  CacheReadResult, hit, miss, encode_read_cache_key, evict_oldest, sweep, read_entry, read, write,
  evict_expired_entries, size,
}
pub mod Drops

snoc-append {ℓ} :
    {A : Type ℓ} (xs : List A) (x : A) (ys : List A) → (xs ++ x ∷ []) ++ ys ≡ xs ++ x ∷ ys
snoc-append [] x ys = refl
snoc-append (z ∷ xs) x ys = ap (λ t. z ∷ t) (snoc-append xs x ys)

not-lt : (a b : ℕ) → ltb a b ≡ false → b ≤ a
not-lt a b h = ground arith

module _ {A : Type 0} where
  -- enough fuel for the eviction loop is the number of the entries
  evict_oldest-drop :
      (capacity fuel : ℕ) (m : Entries (InMemoryReadCacheEntry A))
      → length m ≤ fuel
      → evict_oldest capacity fuel m ≡ drop (length m - capacity) m
  unfolding evict_oldest
  evict_oldest-drop capacity zero [] h = ground arith
  evict_oldest-drop capacity zero (e ∷ m) h = ground arith
  evict_oldest-drop capacity (suc fuel) [] h = sym (drop-none 0 capacity [] (omega arith))
  evict_oldest-drop capacity (suc fuel) (e ∷ m) h =
      elim (Bool-cases (ltb capacity (suc (length m)))) [
        | inl t ↦ rw t (
            rw (delete-first e m) (
              rw (drop-later (length m) capacity e m (ltb→lt _ _ t))
                (evict_oldest-drop capacity fuel m (omega arith))))
        | inr f ↦
            rw f (
              sym
                (drop-none (suc (length m)) capacity (e ∷ m) (not-lt capacity (suc (length m)) f)))
      ]

  -- The entries after a write: the key's old entry is gone, its new one is the last, and of the rest
  -- just as many of the oldest are dropped as exceed the capacity.
  pub write-entries :
      {W : Type 0} (clock : W → ℕ × W) (options : InMemoryReadCacheOptions)
      (key : TenantScopedReadCacheKey) (a : A) (cache : InMemoryReadCache W A)
      → Distinct cache.entries
      → let identity = encode_read_cache_key key in
        let kept = map_delete identity cache.entries in
        (write clock options key a cache).entries
        ≡ drop (length kept + 1 - options.capacity) (
            kept
            ++ (identity, record { value = a; expires_at = (clock cache.world).0 + options.ttl_ms })
              ∷ [])
  unfolding write
  write-entries clock options key a cache distinct =
      let identity = encode_read_cache_key key in
      let kept = map_delete identity cache.entries in
      let entry : InMemoryReadCacheEntry A = record {
        value = a;
        expires_at = (clock cache.world).0 + options.ttl_ms;
      } in
      rw (set-absent identity entry kept (has-delete_self identity cache.entries distinct)) (
        evict_oldest-drop options.capacity _ (kept ++ (identity, entry) ∷ []) (omega arith)
        ∙ ap (λ n. drop (n - options.capacity) (kept ++ (identity, entry) ∷ []))
            (length-append kept ((identity, entry) ∷ [])))

  -- the entries that are alive at `now`
  abbrev pub live : ℕ → Entries (InMemoryReadCacheEntry A) → Entries (InMemoryReadCacheEntry A)
  live now [] = []
  live now (e ∷ m) = let rest = live now m in if leb e.1.expires_at now then rest else e ∷ rest

  -- the loop that deletes from the map it runs over, between what it has kept and what is to come
  pub sweep-live :
      (now : ℕ) (before todo : Entries (InMemoryReadCacheEntry A))
      → Distinct (before ++ todo)
      → sweep now todo (before ++ todo) ≡ before ++ live now todo
  unfolding sweep
  sweep-live now before [] h = refl
  sweep-live now before (e ∷ todo) h =
      let joined = snoc-append before e in
      elim (Bool-cases (leb e.1.expires_at now)) [
        | inl t ↦ rw t (
            rw (delete-middle e before todo h) (
              sweep-live now before todo (
                subst Distinct (delete-middle e before todo h)
                  (delete-Distinct e.0 (before ++ e ∷ todo) h))))
        | inr f ↦ rw f (
            rw (sym (joined todo), sym (joined (live now todo)))
              (sweep-live now (before ++ e ∷ []) todo (subst Distinct (sym (joined todo)) h)))
      ]
