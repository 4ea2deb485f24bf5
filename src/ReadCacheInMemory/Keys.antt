-- ===== src/ReadCacheInMemory/Keys.antt =====
-- The identities under which the in-memory read cache keeps its entries.
use event_driven_platform.Prelude.{◌≡◌, ap, List, [], ◌∷◌, Text}
use event_driven_platform.JavaScript.Quoting.{stringify-injective}
use event_driven_platform.ReadCacheInMemory.{TenantScopedReadCacheKey, encode_read_cache_key}

abbrev pub parts : TenantScopedReadCacheKey → List Text
parts k =
    k.tenant.type ∷ k.tenant.id ∷ k.key.namespace ∷ k.key.version ∷ k.key.partition ∷ k.key.value
    ∷ []

-- the key that has the parts; the last clause is for other lists
abbrev pub key_of : List Text → TenantScopedReadCacheKey
key_of (a ∷ b ∷ c ∷ d ∷ e ∷ f ∷ rest) = record {
  tenant = record { type = a; id = b };
  key = record { namespace = c; version = d; partition = e; value = f };
}
key_of _ = record {
  tenant = record { type = []; id = [] };
  key = record { namespace = []; version = []; partition = []; value = [] };
}

-- Keys that differ in their tenant or in any part have different identities, whatever characters
-- they contain.
pub encode_read_cache_key-injective :
    (a b : TenantScopedReadCacheKey) → encode_read_cache_key a ≡ encode_read_cache_key b → a ≡ b
unfolding encode_read_cache_key
encode_read_cache_key-injective a b e = ap key_of (stringify-injective (parts a) (parts b) e)
