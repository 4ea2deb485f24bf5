-- ===== src/RedisCoordinator/Histories.antt =====
-- What holds of the leases of reads in every history of the coordinators that share a Redis.
use event_driven_platform.Prelude.{
  ℕ, ◌≤◌, ◌<◌, Text, List, [], ◌∷◌, Option, none, some, Bool, true, false, Bool-cases, ◌≡◌, refl,
  sym, ap, ◌∙◌, ◌⊎◌, inl, inr, arith,
}
use event_driven_platform.Coordinator.{
  ReadExecutionLeaseReference, ClaimReadExecutionResult, RenewReadExecutionRequest,
  RenewReadExecutionResult, ReleaseReadExecutionRequest, ReleaseReadExecutionResult,
}
use event_driven_platform.JavaScript.Maps.{same→≡, same_refl}
use event_driven_platform.ReadCacheInMemory.{TenantScopedReadCacheKey}
use event_driven_platform.RedisCoordinator.{
  RedisClient, serialize_lease, is_current, renew, release,
}
use event_driven_platform.RedisCoordinator.Laws.{View, Same, RedisLaws}
use event_driven_platform.RedisCoordinator.Fencing.{
  Grant, System, start, claims, renews, releases, expires, IsDecreasing, Leads, Evolves-Fenced,
  Fenced,
}
use event_driven_platform.RedisCoordinator.Steps.{Expires-Evolves}
use event_driven_platform.RedisCoordinator.Outcomes.{claim-Fenced}
use event_driven_platform.RedisCoordinator.Leases.{
  is_holder, RenewOutcome, ReleaseOutcome, renew-RenewOutcome, release-ReleaseOutcome,
  RenewOutcome-Evolves, ReleaseOutcome-Evolves,
}

abbrev pub Contains : Grant → List Grant → Type 0
Contains g [] = ⊥
Contains g (x ∷ gs) = (x ≡ g) ⊎ Contains g gs

abbrev pub IsRefusedClaim : ClaimReadExecutionResult → Type 0
IsRefusedClaim (ClaimReadExecutionResult.acquired l) = ⊥
IsRefusedClaim _ = Unit

abbrev pub IsRefusedRenewal : RenewReadExecutionResult → Type 0
IsRefusedRenewal (RenewReadExecutionResult.renewed l) = ⊥
IsRefusedRenewal _ = Unit

abbrev pub IsRefusedRelease : ReleaseReadExecutionResult → Type 0
IsRefusedRelease ReleaseReadExecutionResult.released = ⊥
IsRefusedRelease _ = Unit

Leads-version :
    (k : TenantScopedReadCacheKey) (v : ℕ) (gs : List Grant) (g : Grant)
    → Leads k v gs
    → Contains g gs
    → g.key ≡ k
    → g.lease.version ≤ v
Leads-version k v [] g h c e = absurd c
Leads-version k v (x ∷ gs) g h (inl p) e =
    let le : x.lease.version ≤ v = h.0 (ap (λ y. y.key) p ∙ e) in
    let same_version = ap (λ y. y.lease.version) p in omega arith
Leads-version k v (x ∷ gs) g h (inr c) e = Leads-version k v gs g h.1 c e

pub none_not_some : {A : Type 0} {a : A} → ◌≡◌ {A = Option A} none (some a) → ⊥
none_not_some e = cc

pub true_not_false : ◌≡◌ {A = Bool} true false → ⊥
true_not_false e = cc

current_text : (o : Option Text) (t : Text) → is_current o t ≡ true → o ≡ some t
unfolding is_current
current_text none t h = absurd (true_not_false (sym h))
current_text (some x) t h = ap some (same→≡ x t h)

pub text_current : (o : Option Text) (t : Text) → o ≡ some t → is_current o t ≡ true
unfolding is_current
text_current o t h = rw h (same_refl t)

module _ {W Number : Type 0} (redis : RedisClient W Number) (view : View W)
    (laws : RedisLaws redis view) (key_prefix : Text) where
  pub System-Fenced :
      {gs : List Grant} {w : W}
      → System redis view key_prefix gs w
      → Fenced redis view key_prefix gs w
  System-Fenced (start w empty) = record {
    leases = λ k x e. absurd (none_not_some (sym (empty k) ∙ e));
    below = tt;
    decreasing = tt;
  }
  System-Fenced (claims {gs} {w} q h) =
      claim-Fenced redis view laws key_prefix w q gs (System-Fenced h)
  System-Fenced (renews {gs} {w} q h) =
      Evolves-Fenced redis view key_prefix gs
        (RenewOutcome-Evolves redis view laws key_prefix w q _ _
          (renew-RenewOutcome redis view laws key_prefix w q))
        (System-Fenced h)
  System-Fenced (releases {gs} {w} q h) =
      Evolves-Fenced redis view key_prefix gs
        (ReleaseOutcome-Evolves redis view laws key_prefix w q _ _
          (release-ReleaseOutcome redis view laws key_prefix w q))
        (System-Fenced h)
  System-Fenced (expires {gs} {w} {w'} e h) =
      Evolves-Fenced redis view key_prefix gs (Expires-Evolves redis view laws key_prefix w w' e)
        (System-Fenced h)

  -- In every history of the coordinators, each lease that a claim grants has a greater version than
  -- all the leases granted before it, of whatever key and owner.
  pub System-IsDecreasing :
      {gs : List Grant} {w : W} → System redis view key_prefix gs w → IsDecreasing gs
  System-IsDecreasing h = (System-Fenced h).decreasing

  outdated-is_holder :
      (gs : List Grant) (w : W) (newer : Grant) (l : ReadExecutionLeaseReference)
      → Fenced redis view key_prefix gs w
      → Contains newer gs
      → l.version < newer.lease.version
      → is_holder redis view laws key_prefix w newer.key l ≡ false
  outdated-is_holder gs w newer l f c h =
      elim (Bool-cases (is_holder redis view laws key_prefix w newer.key l)) [
        | inr n ↦ n
        | inl y ↦
            let (o, v, t, le, leads) =
              f.leases newer.key (serialize_lease l) (current_text _ (serialize_lease l) y) in
            let version : l.version ≡ v = laws.version_law l o v t in
            let bound : newer.lease.version ≤ v = Leads-version newer.key v gs newer leads c refl in
            absurd (omega arith)
      ]

  refused_renewal :
      (w : W) (q : RenewReadExecutionRequest Number) (r : RenewReadExecutionResult) (w' : W)
      → is_holder redis view laws key_prefix w q.key q.lease ≡ false
      → RenewOutcome redis view laws key_prefix w q r w'
      → IsRefusedRenewal r × Same view w w'
  refused_renewal w q (RenewReadExecutionResult.renewed l) w' n h =
      absurd (true_not_false (sym h.0 ∙ n))
  refused_renewal w q RenewReadExecutionResult.ownership_lost w' n h = (tt, h.1)
  refused_renewal w q (RenewReadExecutionResult.unavailable reason) w' n (inl s) = (tt, s)
  refused_renewal w q (RenewReadExecutionResult.unavailable reason) w' n (inr h) =
      absurd (true_not_false (sym h.0 ∙ n))

  refused_release :
      (w : W) (q : ReleaseReadExecutionRequest) (r : ReleaseReadExecutionResult) (w' : W)
      → is_holder redis view laws key_prefix w q.key q.lease ≡ false
      → ReleaseOutcome redis view laws key_prefix w q r w'
      → IsRefusedRelease r × Same view w w'
  refused_release w q ReleaseReadExecutionResult.released w' n h =
      absurd (true_not_false (sym h.0 ∙ n))
  refused_release w q ReleaseReadExecutionResult.ownership_lost w' n h = (tt, h.1)
  refused_release w q (ReleaseReadExecutionResult.unavailable reason) w' n (inl s) = (tt, s)
  refused_release w q (ReleaseReadExecutionResult.unavailable reason) w' n (inr h) =
      absurd (true_not_false (sym h.0 ∙ n))

  -- In every history, once a claim has granted a lease of a key, a lease of that key with a lower
  -- version is neither renewed nor released, and the attempt changes nothing in Redis: its caller
  -- learns that the ownership is lost, or that Redis is unavailable.
  pub outdated_lease-refused :
      {gs : List Grant} {w : W}
      → System redis view key_prefix gs w
      → (newer : Grant) → Contains newer gs
      → (l : ReadExecutionLeaseReference) → l.version < newer.lease.version
      → (duration : Number)
      → let (r1, w1) =
          renew redis key_prefix
            (record { key = newer.key; lease = l; lease_duration_ms = duration })
            w in
        let (r2, w2) = release redis key_prefix (record { key = newer.key; lease = l }) w in
        (IsRefusedRenewal r1 × Same view w w1) × (IsRefusedRelease r2 × Same view w w2)
  outdated_lease-refused {gs} {w} h newer c l lower duration =
      let lost = outdated-is_holder gs w newer l (System-Fenced h) c lower in
      let renewal : RenewReadExecutionRequest Number = record {
        key = newer.key;
        lease = l;
        lease_duration_ms = duration;
      } in
      let release : ReleaseReadExecutionRequest = record { key = newer.key; lease = l } in
      (
        refused_renewal w renewal _ _ lost
            (renew-RenewOutcome redis view laws key_prefix w renewal),
        refused_release w release _ _ lost
            (release-ReleaseOutcome redis view laws key_prefix w release),
      )
