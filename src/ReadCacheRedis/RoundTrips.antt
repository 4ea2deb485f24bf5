-- ===== src/ReadCacheRedis/RoundTrips.antt =====
-- What is written is read again.
use event_driven_platform.Prelude.{
  Text, Option, some, Bool, true, false, Bool-cases, if◌then◌else◌, ◌≡◌, refl, sym, ap, ◌∙◌, inl,
  inr,
}
use event_driven_platform.Effects.{Result, ok, err, Exec, throw, lift, continue, ◌>>=◌}
use event_driven_platform.Execution.{Thrown}
use event_driven_platform.ReadCacheInMemory.{TenantScopedReadCacheKey, CacheReadResult}
use event_driven_platform.ReadCacheRedis.{
  DurationNumbers, ReadCacheCodec, RedisReadCacheClient, KeyEncoder, is_refused, redis_key,
  read_raw, read, store, store_unless_refused, write,
}

module _ {W A B : Type 0} where
  continued :
      (r : Result Thrown A) (w' : W) (f : A → Exec W Thrown B) (b : B)
      → (continue r f w').0 ≡ ok b
      → (a : A) × (r ≡ ok a) × ((f a w').0 ≡ ok b) × (continue r f w' ≡ f a w')
  continued (ok a) w' f b e = (a, refl, e, refl)
  continued (err t) w' f b e = absurd cc

  -- a method that returns has gone through its first part
  bind-ok :
      (m : Exec W Thrown A) (f : A → Exec W Thrown B) (w : W) (b : B)
      → ((m >>= f) w).0 ≡ ok b
      → (a : A) × ((m w).0 ≡ ok a) × ((f a (m w).1).0 ≡ ok b) × ((m >>= f) w ≡ f a (m w).1)
  bind-ok m f w b e = continued (m w).0 (m w).1 f b e

refused_not_ok :
    {W A : Type 0} (b : Bool) (t : Thrown) (m : Exec W Thrown A) (w : W) {a : A}
    → b ≡ true
    → ((if b then throw t else m) w).0 ≡ ok a
    → ⊥
refused_not_ok true t m w h e = cc
refused_not_ok false t m w h e = cc

module _ {W A Number : Type 0} (client : RedisReadCacheClient W Number) (codec : ReadCacheCodec A)
    (key_encoder : Option KeyEncoder) where
  -- the text that is stored, its name, and the last step
  stored-parts :
      (key : TenantScopedReadCacheKey) (value : A) (ttl : Number) (w : W)
      → (store client codec key_encoder key value ttl w).0 ≡ ok tt
      → (serialized : Text) × (name : Text) × (codec.serialize value ≡ ok serialized)
        × (redis_key client codec key_encoder key ≡ ok name)
        × ((client.set name serialized ttl w).0 ≡ ok tt)
        × (store client codec key_encoder key value ttl w ≡ client.set name serialized ttl w)
  unfolding store
  stored-parts key value ttl w e =
      let named : Text → Exec W Thrown (Unit {0}) = λ serialized.
        lift (redis_key client codec key_encoder key) >>= λ name. client.set name serialized ttl in
      let (serialized, p, e1, q) = bind-ok (lift (codec.serialize value)) named w tt e in
      let (name, r, e2, t) =
        bind-ok (lift (redis_key client codec key_encoder key))
          (λ name. client.set name serialized ttl) w tt e1 in
      (serialized, name, p, r, e2, q ∙ t)

  read_stored :
      {E : Type 0} (key : TenantScopedReadCacheKey) (value : A) (name serialized : Text) (w : W)
      → redis_key client codec key_encoder key ≡ ok name
      → (client.get name w).0 ≡ ok (some serialized)
      → codec.deserialize serialized ≡ ok value
      → (read client codec key_encoder {E = E} key w).0 ≡ ok (CacheReadResult.hit value)
  unfolding read read_raw
  read_stored key value name serialized w n g d = rw (n, g, d) refl

  module _ (numbers : DurationNumbers Number) (resolve_ttl_ms : Exec W Thrown Number) where
    accepted :
        (key : TenantScopedReadCacheKey) (value : A) (ttl : Number) (w : W)
        → (store_unless_refused client codec key_encoder numbers resolve_ttl_ms key value ttl w).0
          ≡ ok tt
        → store_unless_refused client codec key_encoder numbers resolve_ttl_ms key value ttl w
          ≡ store client codec key_encoder key value ttl w
    unfolding store_unless_refused
    accepted key value ttl w e = elim (Bool-cases (is_refused numbers ttl)) [
      | inr f ↦ rw f refl
      | inl t ↦ absurd (refused_not_ok (is_refused numbers ttl) _ _ w t e)
    ]

    -- If the client gives back what it has just set, and the codec reads back what it writes, then a
    -- value that has been written is a hit of the next read of its key, whatever the durations and
    -- the key encoder are.
    pub write-read :
        {E : Type 0}
        → ((name serialized : Text) (ttl : Number) (w : W)
            → (client.set name serialized ttl w).0 ≡ ok tt
            → (client.get name (client.set name serialized ttl w).1).0 ≡ ok (some serialized))
        → ((value : A) (serialized : Text)
            → codec.serialize value ≡ ok serialized
            → codec.deserialize serialized ≡ ok value)
        → (key : TenantScopedReadCacheKey) (value : A) (w : W)
        → (write client codec key_encoder numbers resolve_ttl_ms key value w).0 ≡ ok tt
        → (read client codec key_encoder {E = E} key
            (write client codec key_encoder numbers resolve_ttl_ms key value w).1).0
          ≡ ok (CacheReadResult.hit value)
    unfolding write
    write-read {E} kept reads_back key value w e =
        let checked : Number → Exec W Thrown (Unit {0}) =
          store_unless_refused client codec key_encoder numbers resolve_ttl_ms key value in
        let (ttl, p, e1, q) = bind-ok resolve_ttl_ms checked w tt e in
        let w1 = (resolve_ttl_ms w).1 in
        let a = accepted key value ttl w1 e1 in
        let (serialized, name, s, n, done, last) =
          stored-parts key value ttl w1 (sym (ap (λ x. x.0) a) ∙ e1) in
        let whole = q ∙ a ∙ last in
        ap (λ x. (read client codec key_encoder {E = E} key x.1).0) whole
        ∙ read_stored key value name serialized (client.set name serialized ttl w1).1 n
            (kept name serialized ttl w1 done) (reads_back value serialized s)
