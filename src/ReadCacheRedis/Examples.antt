-- ===== src/ReadCacheRedis/Examples.antt =====
-- A client over one function of names, with an encoding that moves codes from the colon on up by one,
-- and the witnesses of the theorems about the Redis cache.
use event_driven_platform.Prelude.{
  ℕ, zero, suc, ◌+◌, ◌*◌, ◌/◌, ◌%◌, ◌==◌, Bool-cases, inl, inr, false, ltb, Text, text, [], ◌∷◌,
  Option, none, some, true, if◌then◌else◌, ◌≡◌, ◌≢◌, refl, sym, ap, ◌∙◌, subst, arith,
}
use event_driven_platform.Effects.{Result, ok, ◌>>=◌}
use event_driven_platform.Effects.Results.{value_or}
use event_driven_platform.Execution.{Thrown}
use event_driven_platform.JavaScript.{same}
use event_driven_platform.JavaScript.Maps.{same_refl}
use event_driven_platform.JavaScript.Numbers.{
  Extended, nan, infinite, thousandths, is_integer, is_finite, equal, less, plus, minus, times,
  maximum, round,
}
use event_driven_platform.ReadCacheInMemory.{TenantScopedReadCacheKey, CacheReadResult}
use event_driven_platform.ReadCacheRedis.{
  DurationNumbers, ReadCacheCodec, RedisReadCacheClient, default_key_encoder,
  encode_tenant_scoped_key, read, store, write, RedisReadCacheTtlPolicyOptions, resolve_ttl_ms,
  is_no_fraction, jittered,
}
use event_driven_platform.ReadCacheRedis.Keys.{ColonFree, UriLaws, tail_of}
use event_driven_platform.ReadCacheRedis.Isolation.{
  default_key_encoder-injective, encode_tenant_scoped_key-injective,
}
use event_driven_platform.ReadCacheRedis.Durations.{DurationLaws, jittered_ttl, write-store}
use event_driven_platform.ReadCacheRedis.RoundTrips.{write-read}

abbrev moved : ℕ → ℕ
moved c = if ltb c 58 then c else c + 1

abbrev moved_text : Text → Text
moved_text [] = []
moved_text (c ∷ t) = moved c ∷ moved_text t

abbrev encode : Text → Result Thrown Text
encode t = ok (moved_text t)

moved-injective : (c d : ℕ) → moved c ≡ moved d → c ≡ d
moved-injective c d e = ground (arith, e)

moved_not_colon : (c : ℕ) → moved c ≢ 58
moved_not_colon c e = ground (arith, e)

abbrev head_of : Text → ℕ
head_of [] = 0
head_of (c ∷ t) = c

moved_text-injective : (a b : Text) → moved_text a ≡ moved_text b → a ≡ b
moved_text-injective [] [] e = refl
moved_text-injective [] (d ∷ b) e = absurd cc
moved_text-injective (c ∷ a) [] e = absurd cc
moved_text-injective (c ∷ a) (d ∷ b) e =
    rw (moved-injective c d (ap head_of e), moved_text-injective a b (ap tail_of e)) refl

moved_text-ColonFree : (t : Text) → ColonFree (moved_text t)
moved_text-ColonFree [] = tt
moved_text-ColonFree (c ∷ t) = (moved_not_colon c, moved_text-ColonFree t)

encode_laws : UriLaws encode
encode_laws = record {
  injective = λ a b x e e'. moved_text-injective a b (ap (value_or []) (e ∙ sym e'));
  colon_free = λ a x e. subst ColonFree (ap (value_or []) e) (moved_text-ColonFree a);
}

abbrev World : Type 0
World = Text → Option Text

abbrev client : RedisReadCacheClient World Extended
client = record {
  get = λ name w. (ok (w name), w);
  set = λ name value px w. (ok tt, λ n. if same n name then some value else w n);
  encode_uri_component = encode;
}

abbrev codec : ReadCacheCodec Text
codec = record { serialize = λ value. ok value; deserialize = λ raw. ok raw }

abbrev numbers : DurationNumbers Extended
numbers = record {
  zero = thousandths 0;
  one = thousandths 1000;
  two = thousandths 2000;
  is_integer = is_integer;
  is_finite = is_finite;
  equal = equal;
  less = less;
  plus = plus;
  minus = minus;
  times = times;
  maximum = maximum;
  round = round;
}

whole : (a : ℕ) → (a * 1000 % 1000 == 0) ≡ true
whole a = ground arith

rounded : (x : Extended) → is_finite x ≡ true → is_integer (round x) ≡ true
rounded nan e = absurd cc
rounded infinite e = absurd cc
rounded (thousandths a) e = whole ((a + 500) / 1000)

positive :
    (x : Extended)
    → is_integer x ≡ true
    → less (thousandths 0) (maximum (thousandths 1000) x) ≡ true
positive nan e = absurd cc
positive infinite e = absurd cc
positive (thousandths a) e = ground arith

integer : (x : Extended) → is_integer x ≡ true → is_integer (maximum (thousandths 1000) x) ≡ true
integer nan e = absurd cc
integer infinite e = absurd cc
integer (thousandths a) e = elim (Bool-cases (ltb 1000 a)) [ inl t ↦ rw t e | inr f ↦ rw f refl ]

number_laws : DurationLaws numbers
number_laws = record { rounded = rounded; positive = positive; integer = integer }

-- a minute, half a minute more or less
abbrev minute : RedisReadCacheTtlPolicyOptions World Extended
minute = record {
  ttl_ms = thousandths 60000000;
  jitter_ratio = some (thousandths 500);
  random = λ w. (thousandths 750, w);
}

-- whatever the random source gives, what passes its test gives a finite duration
finite_ttl :
    (r : Extended)
    → is_no_fraction numbers minute r ≡ false
    → is_finite (jittered_ttl numbers number_laws minute r) ≡ true
unfolding is_no_fraction jittered
finite_ttl nan h = absurd cc
finite_ttl infinite h = absurd cc
finite_ttl (thousandths zero) h = refl
finite_ttl (thousandths (suc r)) h = refl

abbrev balance_key : TenantScopedReadCacheKey
balance_key = record {
  tenant = record { type = text "merchant"; id = text "m:1" };
  key = record {
    namespace = text "wallet";
    version = text "v1";
    partition = text "balance";
    value = text "wallet-1";
  };
}

abbrev empty : World
empty name = none

encode_tenant_scoped_key-injective_example : balance_key ≡ balance_key
unfolding encode_tenant_scoped_key default_key_encoder
encode_tenant_scoped_key-injective_example =
    encode_tenant_scoped_key-injective encode encode_laws (default_key_encoder encode)
      (default_key_encoder-injective encode encode_laws) balance_key balance_key
      (value_or [] (encode_tenant_scoped_key encode (default_key_encoder encode) balance_key)) refl
      refl

write-store_example :
    write client codec none numbers (resolve_ttl_ms numbers minute) balance_key (text "42") empty
    ≡ (resolve_ttl_ms numbers minute >>= store client codec none balance_key (text "42")) empty
write-store_example =
    write-store numbers number_laws minute client codec none finite_ttl balance_key (text "42")
      empty

just_set :
    (name value : Text) (w : World) → (if same name name then some value else w name) ≡ some value
just_set name value w = rw (same_refl name) refl

write-read_example :
    (read client codec none {E = Thrown} balance_key
      (write client codec none numbers
        (resolve_ttl_ms numbers minute)
        balance_key
        (text "42")
        empty).1).0
    ≡ ok (CacheReadResult.hit (text "42"))
unfolding write resolve_ttl_ms
write-read_example =
    write-read client codec none numbers (resolve_ttl_ms numbers minute)
      (λ name value ttl w h. ap ok (just_set name value w)) (λ value raw h. sym h) balance_key
      (text "42") empty refl
