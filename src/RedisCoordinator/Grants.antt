-- ===== src/RedisCoordinator/Grants.antt =====
-- A granted lease, whether its reply arrives or is lost, keeps the leases fenced.
use event_driven_platform.Prelude.{
  ℕ, suc, Text, List, [], ◌∷◌, some, or_else, Bool, true, false, Bool-cases, ◌≡◌, sym, ap, ◌∙◌, ◌≢◌,
  inl, inr, arith,
}
use event_driven_platform.JavaScript.{same}
use event_driven_platform.JavaScript.Maps.{same→≡, same_refl}
use event_driven_platform.ReadCacheInMemory.{TenantScopedReadCacheKey}
use event_driven_platform.RedisCoordinator.{RedisClient, lease_key}
use event_driven_platform.RedisCoordinator.Laws.{View}
use event_driven_platform.RedisCoordinator.Fencing.{
  Grant, AllBelow, AllBelow-mono, AllBelow-Leads, Leads, lease_at, generation, Encoded, Fenced,
  Granted,
}

true_not_false : ◌≡◌ {A = Bool} true false → ⊥
true_not_false e = cc

pub same_false→≢ : (a b : Text) → same a b ≡ false → a ≢ b
same_false→≢ a b f p = true_not_false (sym (same_refl b) ∙ sym (ap (λ t. same t b) p) ∙ f)

module _ {W Number : Type 0} (redis : RedisClient W Number) (view : View W) (key_prefix : Text)
    (key : TenantScopedReadCacheKey) (owner_id : Text) (v : ℕ) (w w' : W)
    (h : Granted redis view key_prefix key owner_id v w w') (gs : List Grant)
    (f : Fenced redis view key_prefix gs w) where
  -- the lease in Redis is the new one, for each key that shares its place
  granted-text :
      (k : TenantScopedReadCacheKey) (x : Text)
      → lease_key key_prefix k ≡ lease_key key_prefix key
      → lease_at redis view key_prefix k w' ≡ some x
      → x ≡ redis.cjson_encode owner_id v
  granted-text k x p e = ap (λ o. or_else o []) (sym e ∙ ap (view.string_at w') p ∙ h.lease)

  granted-AllBelow : AllBelow v gs
  granted-AllBelow = let e = h.version in rw e f.below

  -- the older grants of any key, at the place of the new lease
  granted-Leads : (k : TenantScopedReadCacheKey) → Leads k v gs
  granted-Leads k =
      AllBelow-Leads gs k v (AllBelow-mono gs v (suc v) (omega arith) granted-AllBelow)

  granted-Encoded :
      (k : TenantScopedReadCacheKey) (x : Text)
      → lease_at redis view key_prefix k w' ≡ some x
      → Encoded redis view key_prefix gs (generation redis view key_prefix w') k x
  granted-Encoded k x e =
      elim (Bool-cases (same (lease_key key_prefix k) (lease_key key_prefix key))) [
        | inl t ↦ (
          owner_id,
          v,
          granted-text k x (same→≡ _ _ t) e,
          let c = h.counted in omega arith,
          granted-Leads k,
        )
        | inr n ↦
            let old = h.others k (same_false→≢ _ _ n) in
            let (o, u, t, l, m) = f.leases k x (sym old ∙ e) in
            let c = h.counted in let s = h.version in (o, u, t, omega arith, m)
      ]

  pub Granted-Fenced : Fenced redis view key_prefix gs w'
  Granted-Fenced = record {
    leases = granted-Encoded;
    below =
        let c = h.counted in
        AllBelow-mono gs v (suc (generation redis view key_prefix w')) (omega arith)
          granted-AllBelow;
    decreasing = f.decreasing;
  }

  abbrev grant : Grant
  grant = record { key = key; lease = record { owner_id = owner_id; version = v } }

  granted-Leads_new :
      (k : TenantScopedReadCacheKey) (x : Text)
      → lease_at redis view key_prefix k w' ≡ some x
      → Encoded redis view key_prefix (grant ∷ gs) (generation redis view key_prefix w') k x
  granted-Leads_new k x e =
      elim (Bool-cases (same (lease_key key_prefix k) (lease_key key_prefix key))) [
        | inl t ↦ (
          owner_id,
          v,
          granted-text k x (same→≡ _ _ t) e,
          let c = h.counted in omega arith,
          (λ p. omega arith, granted-Leads k),
        )
        | inr n ↦
            let (o, u, t, l, m) = granted-Encoded k x e in
            (o, u, t, l, (λ p. absurd (same_false→≢ _ _ n (ap (lease_key key_prefix) (sym p))), m))
      ]

  pub Granted-Fenced_new : Fenced redis view key_prefix (grant ∷ gs) w'
  Granted-Fenced_new = record {
    leases = granted-Leads_new;
    below = (let c = h.counted in omega arith, Granted-Fenced.below);
    decreasing = (granted-AllBelow, f.decreasing);
  }
