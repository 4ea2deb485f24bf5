-- ===== src/ReadCacheRedis.antt =====
-- packages/read-cache-redis: the reader and the writer of a cache in Redis, the policy of its durations
-- and the names of its keys. The client, the codec, `encodeURIComponent` and the numbers of the durations
-- are parameters.
use event_driven_platform.Prelude.{
  ℕ, Text, text, List, [], ◌∷◌, ◌++◌, Option, none, some, Bool, true, false, not, ◌&&◌, ◌||◌,
  if◌then◌else◌,
}
use event_driven_platform.Effects.{Result, ok, err, Exec, pure, throw, lift, ◌>>=◌, ◌>>◌, attempt}
use event_driven_platform.Effects.Results.{and_then}
use event_driven_platform.Execution.{Thrown, plain_error}
use event_driven_platform.ReadCacheInMemory.{
  ReadCacheKey, TenantScopedReadCacheKey, CacheReadResult,
}
pub mod Keys
pub mod Isolation
pub mod Durations
pub mod RoundTrips
mod Examples

-- what the code does with numbers
pub record DurationNumbers (Number : Type 0) : Type 0 where
  pub zero : Number
  pub one : Number
  pub two : Number
  pub is_integer : Number → Bool
  pub is_finite : Number → Bool
  pub equal : Number → Number → Bool
  pub less : Number → Number → Bool
  pub plus : Number → Number → Number
  pub minus : Number → Number → Number
  pub times : Number → Number → Number
  pub maximum : Number → Number → Number
  pub round : Number → Number

pub record ReadCacheCodec (A : Type 0) : Type 0 where
  pub serialize : A → Result Thrown Text
  pub deserialize : Text → Result Thrown A

-- the client, and `encodeURIComponent`, which throws at a lone surrogate
pub record RedisReadCacheClient (W Number : Type 0) : Type 0 where
  pub get : Text → Exec W Thrown (Option Text)
  pub set : (key value : Text) (px : Number) → Exec W Thrown (Unit {0})
  pub encode_uri_component : Text → Result Thrown Text

-- `options.keyEncoder`
abbrev pub KeyEncoder : Type 0
KeyEncoder = ReadCacheKey → Result Thrown Text

module _ (encode_uri_component : Text → Result Thrown Text) where
  -- the parts of a template, each encoded, from the first to the last
  unfoldable pub encode_each : List Text → Result Thrown (List Text)
  encode_each [] = ok []
  encode_each (part ∷ parts) =
      let rest = encode_each parts in
      and_then (encode_uri_component part) (λ x. and_then rest (λ xs. ok (x ∷ xs)))

-- `:${part}` for each part
unfoldable pub colon_parts : List Text → Text
colon_parts [] = []
colon_parts (part ∷ parts) = 58 ∷ (part ++ colon_parts parts)

-- `read-cache:${part}:…`
abbrev pub read_cache_name : List Text → Text
read_cache_name parts = text "read-cache" ++ colon_parts parts

-- defaultRedisReadCacheKeyEncoder.encode
unfoldable pub default_key_encoder : (Text → Result Thrown Text) → KeyEncoder
unfolding encode_each
default_key_encoder encode_uri_component key =
    and_then
      (encode_each encode_uri_component
        (key.namespace ∷ key.version ∷ key.partition ∷ key.value ∷ []))
      (λ parts. ok (read_cache_name parts))

-- encodeTenantScopedRedisReadCacheKey
unfoldable pub encode_tenant_scoped_key :
    (Text → Result Thrown Text) → KeyEncoder → TenantScopedReadCacheKey → Result Thrown Text
unfolding encode_each
encode_tenant_scoped_key encode_uri_component key_encoder k =
    and_then (encode_each encode_uri_component (k.tenant.type ∷ k.tenant.id ∷ [])) (λ tenant.
      and_then (key_encoder k.key) (λ name.
        and_then (encode_uri_component name)
          (λ encoded. ok (read_cache_name (tenant ++ encoded ∷ [])))))

-- a key encoder of the options, or the default
unfoldable pub key_encoder_of : (Text → Result Thrown Text) → Option KeyEncoder → KeyEncoder
unfolding default_key_encoder
key_encoder_of encode_uri_component none = default_key_encoder encode_uri_component
key_encoder_of encode_uri_component (some key_encoder) = key_encoder

-- `!Number.isInteger(ttlMs) || ttlMs <= 0`
unfoldable pub is_refused : {Number : Type 0} → DurationNumbers Number → Number → Bool
is_refused numbers ttl_ms =
    not (numbers.is_integer ttl_ms) || not (numbers.less numbers.zero ttl_ms)

module _ {W A Number : Type 0} (client : RedisReadCacheClient W Number) (codec : ReadCacheCodec A)
    (key_encoder : Option KeyEncoder) where
  -- the name of a key in Redis
  unfoldable pub redis_key : TenantScopedReadCacheKey → Result Thrown Text
  unfolding encode_tenant_scoped_key key_encoder_of
  redis_key key =
      encode_tenant_scoped_key client.encode_uri_component
        (key_encoder_of client.encode_uri_component key_encoder) key

  unfoldable pub read_raw : Option Text → Exec W Thrown (CacheReadResult A)
  read_raw none = pure CacheReadResult.miss
  read_raw (some raw) = do value ← lift (codec.deserialize raw); pure (CacheReadResult.hit value)

  -- RedisReadCacheReader.read: what is thrown is the answer
  unfoldable pub read : {E : Type 0} → TenantScopedReadCacheKey → Exec W E (CacheReadResult A)
  unfolding redis_key read_raw
  read key =
      attempt (lift (redis_key key) >>= client.get >>= read_raw) pure
        (λ e. pure (CacheReadResult.error e))

  unfoldable pub store : TenantScopedReadCacheKey → A → Number → Exec W Thrown (Unit {0})
  unfolding redis_key
  store key value ttl_ms = do
    serialized ← lift (codec.serialize value)
    name ← lift (redis_key key)
    client.set name serialized ttl_ms

  module _ (numbers : DurationNumbers Number) (resolve_ttl_ms : Exec W Thrown Number) where
    unfoldable pub store_unless_refused :
        TenantScopedReadCacheKey → A → Number → Exec W Thrown (Unit {0})
    unfolding is_refused store
    store_unless_refused key value ttl_ms =
        if is_refused numbers ttl_ms
        then throw (
            plain_error (
              text
                "Redis read cache TTL must resolve to a positive integer number of milliseconds."))
        else store key value ttl_ms

    -- RedisReadCacheWriter.write
    unfoldable pub write : TenantScopedReadCacheKey → A → Exec W Thrown (Unit {0})
    unfolding store_unless_refused
    write key value = resolve_ttl_ms >>= store_unless_refused key value

pub record RedisReadCacheTtlPolicyOptions (W Number : Type 0) : Type 0 where
  pub ttl_ms : Number
  pub jitter_ratio : Option Number
  pub random : W → Number × W

module _ {W Number : Type 0} (numbers : DurationNumbers Number)
    (options : RedisReadCacheTtlPolicyOptions W Number) where
  abbrev pub jitter_ratio : Number
  jitter_ratio = elim options.jitter_ratio [ none ↦ numbers.zero | some ratio ↦ ratio ]

  -- `!Number.isFinite(x) || x < 0 || x >= 1`
  unfoldable pub is_no_fraction : Number → Bool
  is_no_fraction x =
      not (numbers.is_finite x) || numbers.less x numbers.zero || not (numbers.less x numbers.one)

  unfoldable pub jittered : Number → Number → Number
  jittered spread random_value =
      if numbers.equal spread numbers.zero
      then numbers.zero
      else numbers.minus (numbers.times (numbers.times random_value spread) numbers.two) spread

  -- the duration by a random value
  unfoldable pub ttl_by : Number → Exec W Thrown Number
  unfolding is_no_fraction jittered
  ttl_by random_value =
      if is_no_fraction random_value
      then throw
          (plain_error (text "Redis read cache random source must return a value in [0, 1)."))
      else pure (
          numbers.maximum numbers.one (
            numbers.round (
              numbers.plus options.ttl_ms
                (jittered (numbers.times options.ttl_ms jitter_ratio) random_value))))

  -- resolveTtlMs
  unfoldable pub resolve_ttl_ms : Exec W Thrown Number
  unfolding ttl_by
  resolve_ttl_ms w = let (random_value, w') = options.random w in ttl_by random_value w'

  -- createRedisReadCacheTtlPolicy
  unfoldable pub create_redis_read_cache_ttl_policy : Result Thrown (Exec W Thrown Number)
  unfolding is_refused is_no_fraction resolve_ttl_ms
  create_redis_read_cache_ttl_policy =
      if is_refused numbers options.ttl_ms
      then err (plain_error (text "Redis read cache ttlMs must be a positive integer."))
      else if is_no_fraction jitter_ratio
      then err (
          plain_error (
            text
              "Redis read cache jitterRatio must be greater than or equal to 0 and less than 1."))
      else ok resolve_ttl_ms
