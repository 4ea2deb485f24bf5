-- ===== src/ReadCacheRedis/Durations.antt =====
-- The durations of the policy, and the writer that uses them.
use event_driven_platform.Prelude.{Option, true, false, Bool-cases, ◌≡◌, refl, inl, inr}
use event_driven_platform.Effects.{Exec, ◌>>=◌}
use event_driven_platform.Execution.{Thrown}
use event_driven_platform.ReadCacheInMemory.{TenantScopedReadCacheKey}
use event_driven_platform.ReadCacheRedis.{
  DurationNumbers, ReadCacheCodec, RedisReadCacheClient, KeyEncoder, is_refused, store,
  store_unless_refused, write, RedisReadCacheTtlPolicyOptions, jitter_ratio, is_no_fraction,
  jittered, ttl_by, resolve_ttl_ms,
}

-- what JavaScript's numbers do; of NaN and Infinity, which are no integers, nothing is asked
pub record DurationLaws {Number : Type 0} (numbers : DurationNumbers Number) : Type 0 where
  pub rounded :
      (x : Number) → numbers.is_finite x ≡ true → numbers.is_integer (numbers.round x) ≡ true
  pub positive :
      (x : Number)
      → numbers.is_integer x ≡ true
      → numbers.less numbers.zero (numbers.maximum numbers.one x) ≡ true
  pub integer :
      (x : Number)
      → numbers.is_integer x ≡ true
      → numbers.is_integer (numbers.maximum numbers.one x) ≡ true

module _ {W Number : Type 0} (numbers : DurationNumbers Number) (laws : DurationLaws numbers)
    (options : RedisReadCacheTtlPolicyOptions W Number) where
  -- the duration before it is rounded
  abbrev pub jittered_ttl : Number → Number
  jittered_ttl random_value = numbers.plus options.ttl_ms (
      jittered numbers options (numbers.times options.ttl_ms (jitter_ratio numbers options))
        random_value)

  accepted_duration :
      (x : Number)
      → numbers.is_finite x ≡ true
      → is_refused numbers (numbers.maximum numbers.one (numbers.round x)) ≡ false
  unfolding is_refused
  accepted_duration x h =
      let r = laws.rounded x h in
      rw (laws.integer (numbers.round x) r, laws.positive (numbers.round x) r) refl

  accepted_or_thrown :
      {A : Type 0} (client : RedisReadCacheClient W Number) (codec : ReadCacheCodec A)
      (key_encoder : Option KeyEncoder)
      (finite : (r : Number)
        → is_no_fraction numbers options r ≡ false
        → numbers.is_finite (jittered_ttl r) ≡ true)
      (key : TenantScopedReadCacheKey) (value : A) (resolve : Exec W Thrown Number) (r : Number)
      (w : W)
      → (ttl_by numbers options r
            >>= store_unless_refused client codec key_encoder numbers resolve key value)
          w
        ≡ (ttl_by numbers options r >>= store client codec key_encoder key value) w
  unfolding ttl_by store_unless_refused
  accepted_or_thrown client codec key_encoder finite key value resolve r w =
      elim (Bool-cases (is_no_fraction numbers options r)) [
        | inl t ↦ rw t refl
        | inr f ↦ rw (f, accepted_duration (jittered_ttl r) (finite r f)) refl
      ]

  -- A writer with the durations of the policy never refuses them: if the jittered durations are
  -- finite, a write resolves the duration and stores the value with it, whatever the options are.
  pub write-store :
      {A : Type 0} (client : RedisReadCacheClient W Number) (codec : ReadCacheCodec A)
      (key_encoder : Option KeyEncoder)
      → ((r : Number)
          → is_no_fraction numbers options r ≡ false
          → numbers.is_finite (jittered_ttl r) ≡ true)
      → (key : TenantScopedReadCacheKey) (value : A) (w : W)
      → write client codec key_encoder numbers (resolve_ttl_ms numbers options) key value w
        ≡ (resolve_ttl_ms numbers options >>= store client codec key_encoder key value) w
  unfolding write resolve_ttl_ms
  write-store client codec key_encoder finite key value w =
      accepted_or_thrown client codec key_encoder finite key value (resolve_ttl_ms numbers options)
        (options.random w).0 (options.random w).1
