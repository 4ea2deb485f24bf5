-- ===== src/ReadCacheInMemory/Isolation.antt =====
-- A write for one key and the entries of the others.
use event_driven_platform.Prelude.{
  ℕ, zero, suc, ◌+◌, ◌-◌, false, Bool-cases, Option-cases, ◌≡◌, ◌≢◌, refl, sym, ap, ◌∙◌, subst, [],
  ◌∷◌, ◌++◌, none, some, Text, length, drop, arith, inl, inr, if◌then◌else◌, leb,
}
use event_driven_platform.JavaScript.{Entries, map_get, map_has, map_delete, same}
use event_driven_platform.JavaScript.Maps.{
  Distinct, same→≡, delete-Distinct, has-delete_self, append-Distinct,
}
use event_driven_platform.ReadCacheInMemory.Laws.{write-entries}
use event_driven_platform.ReadCacheInMemory.Keys.{encode_read_cache_key-injective}
use event_driven_platform.ReadCacheInMemory.Validity.{read_entry_lem}
use event_driven_platform.ReadCacheInMemory.{
  InMemoryReadCacheEntry, InMemoryReadCacheOptions, InMemoryReadCache, TenantScopedReadCacheKey,
  hit, miss, encode_read_cache_key, read_entry, read, write,
}

module _ {ℓ} {V : Type ℓ} where
  get-absent : (j : Text) (m : Entries V) → map_has j m ≡ false → map_get j m ≡ none
  unfolding map_has map_get
  get-absent j [] h = refl
  get-absent j (e ∷ m) h = ground (arith, get-absent j m)

  get-delete_other :
      (j k : Text) (m : Entries V) → same j k ≡ false → map_get j (map_delete k m) ≡ map_get j m
  unfolding map_get map_delete
  get-delete_other j k [] d = refl
  get-delete_other j k (e ∷ m) d = elim (Bool-cases (same k e.0)) [
    | inl t ↦
        let other : same j e.0 ≡ false = subst (λ x. same j x ≡ false) (same→≡ k e.0 t) d in
        rw (t, other) refl
    | inr f ↦ rw f (rw (get-delete_other j k m d) refl)
  ]

  get-append_other :
      (j k : Text) (v : V) (m : Entries V)
      → same j k ≡ false
      → map_get j (m ++ (k, v) ∷ []) ≡ map_get j m
  unfolding map_get
  get-append_other j k v [] d = rw d refl
  get-append_other j k v (e ∷ m) d = rw (get-append_other j k v m d) refl

  get-cons_absent :
      (j : Text) (e : Text × V) (m : Entries V) (v : V)
      → map_has e.0 m ≡ false
      → map_get j m ≡ some v
      → map_get j (e ∷ m) ≡ some v
  unfolding map_get
  get-cons_absent j e m v h g = elim (Bool-cases (same j e.0)) [
    | inl t ↦
        let absent : map_has j m ≡ false =
          subst (λ x. map_has x m ≡ false) (sym (same→≡ j e.0 t)) h in
        ground (arith, get-absent j m absent, g)
    | inr f ↦ rw f g
  ]

  get-drop :
      (j : Text) (n : ℕ) (m : Entries V) (v : V)
      → Distinct m
      → map_get j (drop n m) ≡ some v
      → map_get j m ≡ some v
  get-drop j zero m v d g = g
  get-drop j (suc n) [] v d g = g
  get-drop j (suc n) (e ∷ m) v d g = get-cons_absent j e m v d.0 (get-drop j n m v d.1 g)

same-differ : (a b : Text) → a ≢ b → same a b ≡ false
same-differ a b d = elim (Bool-cases (same a b)) [ inl t ↦ absurd (d (same→≡ a b t)) | inr f ↦ f ]

module _ {W A : Type 0} (clock : W → ℕ × W) (options : InMemoryReadCacheOptions) where
  -- what is found after a write for another key was found before it
  get-write_other :
      (j key : TenantScopedReadCacheKey) (a : A) (cache : InMemoryReadCache W A)
      (entry : InMemoryReadCacheEntry A)
      → j ≢ key
      → Distinct cache.entries
      → map_get (encode_read_cache_key j) (write clock options key a cache).entries ≡ some entry
      → map_get (encode_read_cache_key j) cache.entries ≡ some entry
  get-write_other j key a cache entry differ d g =
      let i = encode_read_cache_key j in
      let identity = encode_read_cache_key key in
      let apart = same-differ i identity (λ e. differ (encode_read_cache_key-injective j key e)) in
      let kept = map_delete identity cache.entries in
      let new : InMemoryReadCacheEntry A = record {
        value = a;
        expires_at = (clock cache.world).0 + options.ttl_ms;
      } in
      let all : Entries (InMemoryReadCacheEntry A) = kept ++ (identity, new) ∷ [] in
      let distinct =
        append-Distinct identity new kept (delete-Distinct identity cache.entries d)
          (has-delete_self identity cache.entries d) in
      let dropped : map_get i (drop (length kept + 1 - options.capacity) all) ≡ some entry =
        ap (map_get i) (sym (write-entries clock options key a cache d)) ∙ g in
      sym (get-delete_other i identity cache.entries apart)
      ∙ sym (get-append_other i identity new kept apart)
      ∙ get-drop i (length kept + 1 - options.capacity) all entry distinct dropped

  read_absent :
      (j : TenantScopedReadCacheKey) (w : W) (m : Entries (InMemoryReadCacheEntry A))
      → map_get (encode_read_cache_key j) m ≡ none
      → (read clock options j (record { world = w; entries = m })).0 ≡ miss
  unfolding read read_entry
  read_absent j w m absent = rw absent refl

  read_present :
      (j : TenantScopedReadCacheKey) (w : W) (m : Entries (InMemoryReadCacheEntry A))
      (entry : InMemoryReadCacheEntry A)
      → map_get (encode_read_cache_key j) m ≡ some entry
      → (read clock options j (record { world = w; entries = m })).0
        ≡ (if leb entry.expires_at (clock w).0 then miss else hit entry.value)
  unfolding read
  read_present j w m entry found =
      rw found (read_entry_lem clock options (encode_read_cache_key j) entry w m)

  -- the outcome of a read depends on the entry found and on the clock only
  read-found :
      (j : TenantScopedReadCacheKey) (w : W) (m m' : Entries (InMemoryReadCacheEntry A)) (v : A)
      → ((entry : InMemoryReadCacheEntry A)
          → map_get (encode_read_cache_key j) m ≡ some entry
          → map_get (encode_read_cache_key j) m' ≡ some entry)
      → (read clock options j (record { world = w; entries = m })).0 ≡ hit v
      → (read clock options j (record { world = w; entries = m' })).0 ≡ hit v
  read-found j w m m' v keep h = elim (Option-cases (map_get (encode_read_cache_key j) m)) [
    | inl absent ↦
        let clash : miss ≡ hit v = sym (read_absent j w m absent) ∙ h in ground (arith, clash)
    | inr found ↦
        read_present j w m' found.0 (keep found.0 found.1)
        ∙ sym (read_present j w m found.0 found.1)
        ∙ h
  ]

  -- A write for one key gives no other key a value: in a cache with distinct keys, what is a hit for
  -- another key after the write was, at the same time, the same hit before it.
  pub read-write_other :
      (j key : TenantScopedReadCacheKey) (a : A) (cache : InMemoryReadCache W A) (w : W) (v : A)
      → j ≢ key
      → Distinct cache.entries
      → (read clock options j
          (record { world = w; entries = (write clock options key a cache).entries })).0
        ≡ hit v
      → (read clock options j (record { world = w; entries = cache.entries })).0 ≡ hit v
  read-write_other j key a cache w v differ d =
      read-found j w (write clock options key a cache).entries cache.entries v
        (λ entry. get-write_other j key a cache entry differ d)
