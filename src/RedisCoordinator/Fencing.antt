-- ===== src/RedisCoordinator/Fencing.antt =====
-- Every history of the coordinators that share a Redis and a prefix, as steps; what the steps do to the
-- leases, and the order of the versions.
use event_driven_platform.Prelude.{
  ℕ, suc, ◌≤◌, ◌<◌, Text, List, [], ◌∷◌, ◌++◌, Option, none, some, ◌≡◌, sym, ap, ◌∙◌, ◌≢◌, ◌⊎◌, inl,
  inr, arith,
}
use event_driven_platform.Coordinator.{
  ReadExecutionLeaseReference, ClaimReadExecutionRequest, ClaimReadExecutionResult,
  RenewReadExecutionRequest, ReleaseReadExecutionRequest,
}
use event_driven_platform.ReadCacheInMemory.{TenantScopedReadCacheKey}
use event_driven_platform.RedisCoordinator.{
  RedisClient, lease_key, generation_key, claim, renew, release,
}
use event_driven_platform.RedisCoordinator.Laws.{View, Expires}

-- a lease that a claim has answered with
pub record Grant : Type 0 where
  pub key : TenantScopedReadCacheKey
  pub lease : ReadExecutionLeaseReference

abbrev pub granted : TenantScopedReadCacheKey → ClaimReadExecutionResult → List Grant → List Grant
granted key (ClaimReadExecutionResult.acquired l) gs = record { key = key; lease = l } ∷ gs
granted key _ gs = gs

-- The grants so far, newest first, and the world. Scripts are atomic, so an operation is a step; a
-- wait only reads, and is none. Keys may expire between any two steps.
pub data System {W Number : Type 0} (redis : RedisClient W Number) (view : View W)
    (key_prefix : Text) : List Grant → W → Type 0 where
  start :
      (w : W)
      → ((key : TenantScopedReadCacheKey) → view.string_at w (lease_key key_prefix key) ≡ none)
      → System redis view key_prefix [] w
  claims :
      {gs : List Grant} {w : W} (q : ClaimReadExecutionRequest Number)
      → System redis view key_prefix gs w
      → System redis view key_prefix
          (granted q.key (claim redis key_prefix q w).0 gs)
          (claim redis key_prefix q w).1
  renews :
      {gs : List Grant} {w : W} (q : RenewReadExecutionRequest Number)
      → System redis view key_prefix gs w
      → System redis view key_prefix gs (renew redis key_prefix q w).1
  releases :
      {gs : List Grant} {w : W} (q : ReleaseReadExecutionRequest)
      → System redis view key_prefix gs w
      → System redis view key_prefix gs (release redis key_prefix q w).1
  expires :
      {gs : List Grant} {w w' : W}
      → Expires view w w'
      → System redis view key_prefix gs w
      → System redis view key_prefix gs w'

-- each grant has a greater version than all the grants before it
abbrev pub AllBelow : ℕ → List Grant → Type 0
AllBelow n [] = Unit
AllBelow n (g ∷ gs) = (g.lease.version < n) × AllBelow n gs

abbrev pub IsDecreasing : List Grant → Type 0
IsDecreasing [] = Unit
IsDecreasing (g ∷ gs) = AllBelow g.lease.version gs × IsDecreasing gs

-- no grant of the key has a greater version
abbrev pub Leads : TenantScopedReadCacheKey → ℕ → List Grant → Type 0
Leads k v [] = Unit
Leads k v (g ∷ gs) = (g.key ≡ k → g.lease.version ≤ v) × Leads k v gs

pub AllBelow-mono : (gs : List Grant) (m n : ℕ) → m ≤ n → AllBelow m gs → AllBelow n gs
AllBelow-mono [] m n h b = tt
AllBelow-mono (g ∷ gs) m n h b = (let b0 = b.0 in omega arith, AllBelow-mono gs m n h b.1)

pub AllBelow-Leads :
    (gs : List Grant) (k : TenantScopedReadCacheKey) (v : ℕ) → AllBelow (suc v) gs → Leads k v gs
AllBelow-Leads [] k v b = tt
AllBelow-Leads (g ∷ gs) k v b = (λ e. let b0 = b.0 in omega arith, AllBelow-Leads gs k v b.1)

abbrev tail_of : Text → Text
tail_of [] = []
tail_of (x ∷ t) = t

pub append-injective : (p a b : Text) → p ++ a ≡ p ++ b → a ≡ b
append-injective [] a b e = e
append-injective (x ∷ p) a b e = append-injective p a b (ap tail_of e)

module _ {W Number : Type 0} (redis : RedisClient W Number) (view : View W)
    (key_prefix : Text) where
  abbrev pub lease_at : TenantScopedReadCacheKey → W → Option Text
  lease_at k w = view.string_at w (lease_key key_prefix k)

  abbrev pub generation : W → ℕ
  generation w = view.count_at w (generation_key key_prefix)

  -- a lease in Redis: its text, and a version that no grant of the key exceeds
  abbrev pub Encoded : List Grant → ℕ → TenantScopedReadCacheKey → Text → Type 0
  Encoded gs n k x =
      (owner_id : Text) × (v : ℕ) × (x ≡ redis.cjson_encode owner_id v) × (v ≤ n) × Leads k v gs

  pub record Fenced (gs : List Grant) (w : W) : Type 0 where
    pub leases :
        (k : TenantScopedReadCacheKey) (x : Text)
        → lease_at k w ≡ some x
        → Encoded gs (generation w) k x
    pub below : AllBelow (suc (generation w)) gs
    pub decreasing : IsDecreasing gs

  -- leases may have gone, and none has come
  pub record Evolves (w w' : W) : Type 0 where
    pub grows : generation w ≤ generation w'
    pub leases :
        (k : TenantScopedReadCacheKey) → (lease_at k w' ≡ lease_at k w) ⊎ (lease_at k w' ≡ none)

  none_not_some : {A : Type 0} {a : A} → ◌≡◌ {A = Option A} none (some a) → ⊥
  none_not_some e = cc

  pub Evolves-Fenced : {w w' : W} (gs : List Grant) → Evolves w w' → Fenced gs w → Fenced gs w'
  Evolves-Fenced {w} {w'} gs h f = record {
    leases = λ k x e. elim (h.leases k) [
      | inl s ↦
          let (owner_id, v, t, l, m) = f.leases k x (sym s ∙ e) in
          let g = h.grows in (owner_id, v, t, omega arith, m)
      | inr n ↦ absurd (none_not_some (sym n ∙ e))
    ];
    below =
        let g = h.grows in
        AllBelow-mono gs (suc (generation w)) (suc (generation w')) (omega arith) f.below;
    decreasing = f.decreasing;
  }

  -- a lease has been granted where none was, with the next version
  pub record Granted (key : TenantScopedReadCacheKey) (owner_id : Text) (v : ℕ) (w w' : W)
      : Type 0 where
    pub free : lease_at key w ≡ none
    pub version : v ≡ suc (generation w)
    pub counted : generation w' ≡ v
    pub lease : lease_at key w' ≡ some (redis.cjson_encode owner_id v)
    pub others :
        (k : TenantScopedReadCacheKey)
        → lease_key key_prefix k ≢ lease_key key_prefix key
        → lease_at k w' ≡ lease_at k w
