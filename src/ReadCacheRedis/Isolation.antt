-- ===== src/ReadCacheRedis/Isolation.antt =====
-- Different keys of different tenants have different names in Redis.
use event_driven_platform.Prelude.{Text, text, List, [], ◌∷◌, ◌++◌, ◌≡◌, refl, sym, ap, ◌∙◌}
use event_driven_platform.Effects.{Result, ok}
use event_driven_platform.Effects.Results.{and_then, and_then-ok, value_or}
use event_driven_platform.Execution.{Thrown}
use event_driven_platform.ReadCacheInMemory.{ReadCacheKey, TenantScopedReadCacheKey}
use event_driven_platform.ReadCacheRedis.{
  encode_each, read_cache_name, KeyEncoder, default_key_encoder, encode_tenant_scoped_key,
}
use event_driven_platform.ReadCacheRedis.Keys.{
  ColonFree, AllColonFree, UriLaws, encode_each-AllColonFree, encode_each-injective,
  colon_parts-injective, append-injective, nil_not_cons, tail_of, first_part,
}

read_cache_name-injective :
    (xs ys : List Text)
    → AllColonFree xs
    → AllColonFree ys
    → read_cache_name xs ≡ read_cache_name ys
    → xs ≡ ys
read_cache_name-injective xs ys f g e =
    colon_parts-injective xs ys f g (append-injective (text "read-cache") _ _ e)

nil_not_snoc : (xs : List Text) (x : Text) → ◌≡◌ {A = List Text} [] (xs ++ x ∷ []) → ⊥
nil_not_snoc [] x e = nil_not_cons e
nil_not_snoc (y ∷ xs) x e = nil_not_cons e

snoc-injective :
    (xs ys : List Text) (x y : Text) → xs ++ x ∷ [] ≡ ys ++ y ∷ [] → (xs ≡ ys) × (x ≡ y)
snoc-injective [] [] x y e = (refl, ap first_part e)
snoc-injective [] (b ∷ ys) x y e = absurd (nil_not_snoc ys y (ap tail_of e))
snoc-injective (a ∷ xs) [] x y e = absurd (nil_not_snoc xs x (sym (ap tail_of e)))
snoc-injective (a ∷ xs) (b ∷ ys) x y e =
    let ih = snoc-injective xs ys x y (ap tail_of e) in
    let same_first : a ≡ b = ap first_part e in (rw (same_first, ih.0) refl, ih.1)

snoc-AllColonFree :
    (xs : List Text) (x : Text) → AllColonFree xs → ColonFree x → AllColonFree (xs ++ x ∷ [])
snoc-AllColonFree [] x f g = (g, tt)
snoc-AllColonFree (y ∷ xs) x f g = (f.0, snoc-AllColonFree xs x f.1 g)

abbrev key_of : List Text → ReadCacheKey
key_of (a ∷ b ∷ c ∷ d ∷ rest) = record { namespace = a; version = b; partition = c; value = d }
key_of _ = record { namespace = []; version = []; partition = []; value = [] }

abbrev scoped_key_of : ReadCacheKey → List Text → TenantScopedReadCacheKey
scoped_key_of key (a ∷ b ∷ rest) = record { tenant = record { type = a; id = b }; key = key }
scoped_key_of key _ = record { tenant = record { type = []; id = [] }; key = key }

abbrev tenant_parts : TenantScopedReadCacheKey → List Text
tenant_parts k = k.tenant.type ∷ k.tenant.id ∷ []

abbrev key_parts : ReadCacheKey → List Text
key_parts k = k.namespace ∷ k.version ∷ k.partition ∷ k.value ∷ []

module _ (encode_uri_component : Text → Result Thrown Text) where
  -- the parts that a name is made of
  key_name-parts :
      (k : ReadCacheKey) (x : Text)
      → default_key_encoder encode_uri_component k ≡ ok x
      → (xs : List Text) × (encode_each encode_uri_component (key_parts k) ≡ ok xs)
        × (read_cache_name xs ≡ x)
  unfolding default_key_encoder
  key_name-parts k x e =
      let named : List Text → Result Thrown Text = λ parts. ok (read_cache_name parts) in
      let (xs, p, e1) = and_then-ok (encode_each encode_uri_component (key_parts k)) named x e in
      (xs, p, ap (value_or []) e1)

  scoped_name-parts :
      (key_encoder : KeyEncoder) (k : TenantScopedReadCacheKey) (x : Text)
      → encode_tenant_scoped_key encode_uri_component key_encoder k ≡ ok x
      → (xs : List Text) × (name : Text) × (encoded : Text) × (encode_each encode_uri_component
            (tenant_parts k)
          ≡ ok xs)
        × (key_encoder k.key ≡ ok name)
        × (encode_uri_component name ≡ ok encoded)
        × (read_cache_name (xs ++ encoded ∷ []) ≡ x)
  unfolding encode_tenant_scoped_key
  scoped_name-parts key_encoder k x e =
      let joined : List Text → Text → Result Thrown Text =
        λ xs encoded. ok (read_cache_name (xs ++ encoded ∷ [])) in
      let named : List Text → Text → Result Thrown Text =
        λ xs name. and_then (encode_uri_component name) (joined xs) in
      let scoped : List Text → Result Thrown Text = λ xs. and_then (key_encoder k.key) (named xs) in
      let (xs, p, e1) =
        and_then-ok (encode_each encode_uri_component (tenant_parts k)) scoped x e in
      let (name, q, e2) = and_then-ok (key_encoder k.key) (named xs) x e1 in
      let (encoded, r, e3) = and_then-ok (encode_uri_component name) (joined xs) x e2 in
      (xs, name, encoded, p, q, r, ap (value_or []) e3)

module _ (encode_uri_component : Text → Result Thrown Text)
    (laws : UriLaws encode_uri_component) where
  pub default_key_encoder-injective :
      (a b : ReadCacheKey) (x : Text)
      → default_key_encoder encode_uri_component a ≡ ok x
      → default_key_encoder encode_uri_component b ≡ ok x
      → a ≡ b
  default_key_encoder-injective a b x e e' =
      let (xs, p, n) = key_name-parts encode_uri_component a x e in
      let (ys, q, m) = key_name-parts encode_uri_component b x e' in
      let same_parts : xs ≡ ys =
        read_cache_name-injective xs ys
          (encode_each-AllColonFree encode_uri_component laws (key_parts a) xs p)
          (encode_each-AllColonFree encode_uri_component laws (key_parts b) ys q) (n ∙ sym m) in
      ap key_of (
        encode_each-injective encode_uri_component laws (key_parts a) (key_parts b) ys
          (p ∙ ap ok same_parts) q)

  scoped-AllColonFree :
      (k : TenantScopedReadCacheKey) (xs : List Text) (name encoded : Text)
      → encode_each encode_uri_component (tenant_parts k) ≡ ok xs
      → encode_uri_component name ≡ ok encoded
      → AllColonFree (xs ++ encoded ∷ [])
  scoped-AllColonFree k xs name encoded p r =
      snoc-AllColonFree xs encoded
        (encode_each-AllColonFree encode_uri_component laws (tenant_parts k) xs p)
        (laws.colon_free name encoded r)

  -- If `encodeURIComponent` tells texts apart and encodes colons, and the key encoder tells keys apart,
  -- then keys that differ in their tenant or in any part have different names in Redis.
  pub encode_tenant_scoped_key-injective :
      (key_encoder : KeyEncoder)
      → ((a b : ReadCacheKey) (x : Text) → key_encoder a ≡ ok x → key_encoder b ≡ ok x → a ≡ b)
      → (a b : TenantScopedReadCacheKey) (x : Text)
      → encode_tenant_scoped_key encode_uri_component key_encoder a ≡ ok x
      → encode_tenant_scoped_key encode_uri_component key_encoder b ≡ ok x
      → a ≡ b
  encode_tenant_scoped_key-injective key_encoder tells a b x e e' =
      let (xs, name, encoded, p, q, r, n) =
        scoped_name-parts encode_uri_component key_encoder a x e in
      let (xs', name', encoded', p', q', r', n') =
        scoped_name-parts encode_uri_component key_encoder b x e' in
      let parts = snoc-injective xs xs' encoded encoded' (
        read_cache_name-injective (xs ++ encoded ∷ []) (xs' ++ encoded' ∷ [])
          (scoped-AllColonFree a xs name encoded p r)
          (scoped-AllColonFree b xs' name' encoded' p' r') (n ∙ sym n')) in
      let same_name = laws.injective name name' encoded r (r' ∙ ap ok (sym parts.1)) in
      let same_key = tells a.key b.key name q (q' ∙ ap ok (sym same_name)) in
      let same_tenant =
        encode_each-injective encode_uri_component laws (tenant_parts a) (tenant_parts b) xs p
          (p' ∙ ap ok (sym parts.0)) in
      ap (scoped_key_of a.key) same_tenant ∙ ap (λ k. scoped_key_of k (tenant_parts b)) same_key
