-- ===== src/ReadCacheInMemory/Examples.antt =====
-- Tests of the in-memory read cache: a cache of two entries that live for 100 milliseconds, in a world
-- that is the time. The witnesses of the theorems about it stand here.
use event_driven_platform.Prelude.{
  ℕ, ◌+◌, ◌-◌, ◌≤◌, arith, ◌≡◌, ◌≢◌, refl, ap, Text, text, decimal, [], ◌∷◌, ◌++◌, leb, length,
  drop, if◌then◌else◌,
}
use event_driven_platform.Effects.{ok}
use event_driven_platform.JavaScript.{map_delete}
use event_driven_platform.ReadCacheInMemory.{
  TenantScopedReadCacheKey, InMemoryReadCacheOptions, InMemoryReadCache, hit, miss,
  encode_read_cache_key, create_in_memory_read_cache, read, write, size,
}
use event_driven_platform.ReadCacheInMemory.Keys.{encode_read_cache_key-injective}
use event_driven_platform.ReadCacheInMemory.Isolation.{read-write_other}
use event_driven_platform.ReadCacheInMemory.Laws.{write-entries, live}
use event_driven_platform.ReadCacheInMemory.Validity.{
  Reachable, created, written, passed, IsValid, Reachable-IsValid, read-write, size-live,
}

abbrev clock : ℕ → ℕ × ℕ
clock w = (w, w)

abbrev options : InMemoryReadCacheOptions
options = record { capacity = 2; ttl_ms = 100 }

abbrev user_key : Text → TenantScopedReadCacheKey
user_key value = record {
  tenant = record { type = text "merchant"; id = text "tenant-a" };
  key = record {
    namespace = text "user";
    version = text "v1";
    partition = text "users";
    value = value;
  };
}

abbrev empty : InMemoryReadCache ℕ ℕ
empty = record { world = 0; entries = [] }

abbrev one : InMemoryReadCache ℕ ℕ
one = write clock options (user_key (text "1")) 11 empty

abbrev later : InMemoryReadCache ℕ ℕ
later = record { world = 60; entries = one.entries }

abbrev three : InMemoryReadCache ℕ ℕ
three =
    write clock options (user_key (text "3")) 33
      (write clock options (user_key (text "2")) 22 later)

oldest_evicted : (read clock options (user_key (text "1")) three).0 ≡ miss
unfolding read write text
oldest_evicted = refl

kept : (read clock options (user_key (text "3")) three).0 ≡ hit 33
unfolding read write text
kept = refl

quoted :
    encode_read_cache_key (user_key (text "a\"b"))
    ≡ text "[\"merchant\",\"tenant-a\",\"user\",\"v1\",\"users\",\"a\\\"b\"]"
unfolding encode_read_cache_key text
quoted = refl

made : create_in_memory_read_cache options 0 ≡ ok empty
unfolding create_in_memory_read_cache
made = refl

one_fits : 1 ≤ options.capacity
one_fits = omega arith

later-Reachable : Reachable clock options later
later-Reachable = passed 60 one (written (user_key (text "1")) 11 empty (created 0 empty made))

same_identity :
    encode_read_cache_key (user_key (text "2")) ≡ encode_read_cache_key (user_key (decimal 2))
unfolding text decimal
same_identity = refl

three-Reachable : Reachable clock options three
three-Reachable =
    written (user_key (text "3")) 33 (write clock options (user_key (text "2")) 22 later)
      (written (user_key (text "2")) 22 later later-Reachable)

encode_read_cache_key-injective_example : user_key (text "2") ≡ user_key (decimal 2)
encode_read_cache_key-injective_example =
    encode_read_cache_key-injective (user_key (text "2")) (user_key (decimal 2)) same_identity

Reachable-IsValid_example : IsValid clock options three
Reachable-IsValid_example = Reachable-IsValid clock options three three-Reachable

read-write_example :
    (read clock options (user_key (text "2")) (record {
      world = 160;
      entries = (write clock options (user_key (text "2")) 22 later).entries;
    })).0
    ≡ (if leb 160 160 then miss else hit 22)
read-write_example =
    read-write clock options (user_key (text "2")) 22 later 160
      (Reachable-IsValid clock options later later-Reachable).0 one_fits

write-entries_example :
    (write clock options (user_key (text "2")) 22 later).entries
    ≡ drop
        (length (map_delete (encode_read_cache_key (user_key (text "2"))) later.entries) + 1 - 2)
        (map_delete (encode_read_cache_key (user_key (text "2"))) later.entries
          ++ (encode_read_cache_key (user_key (text "2")), record { value = 22; expires_at = 160 })
            ∷ [])
write-entries_example =
    write-entries clock options (user_key (text "2")) 22 later
      (Reachable-IsValid clock options later later-Reachable).0

size-live_example :
    size clock options later
    ≡ (length (live 60 later.entries), record { world = 60; entries = live 60 later.entries })
size-live_example =
    size-live clock options later (Reachable-IsValid clock options later later-Reachable).0

abbrev last_code : Text → ℕ
last_code [] = 0
last_code (c ∷ t) = c

still_read :
    (read clock options (user_key (text "1")) (record {
      world = 60;
      entries = (write clock options (user_key (text "2")) 22 later).entries;
    })).0
    ≡ hit 11
unfolding read write text
still_read = refl

distinct_users : user_key (text "1") ≢ user_key (text "2")
unfolding text
distinct_users e =
    let values : 49 ≡ 50 = ap (λ k. last_code k.key.value) e in ground (arith, values)

read-write_other_example :
    (read clock options (user_key (text "1")) (record { world = 60; entries = later.entries })).0
    ≡ hit 11
read-write_other_example =
    read-write_other clock options (user_key (text "1")) (user_key (text "2")) 22 later 60 11
      distinct_users (Reachable-IsValid clock options later later-Reachable).0 still_read
