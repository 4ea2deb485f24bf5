-- ===== src/RedisCoordinator/Holder.antt =====
-- What the holder of a lease and the others see while the lease is in Redis.
use event_driven_platform.Prelude.{
  Text, Option, none, some, true, ◌≡◌, refl, sym, ap, ◌∙◌, inl, inr,
}
use event_driven_platform.Coordinator.{
  ReadExecutionLeaseReference, ClaimReadExecutionRequest, ClaimReadExecutionResult,
  RenewReadExecutionRequest, RenewReadExecutionResult, ReleaseReadExecutionRequest,
  ReleaseReadExecutionResult,
}
use event_driven_platform.RedisCoordinator.{RedisClient, serialize_lease, claim, renew, release}
use event_driven_platform.RedisCoordinator.Laws.{View, RedisLaws}
use event_driven_platform.RedisCoordinator.Fencing.{lease_at, Evolves}
use event_driven_platform.RedisCoordinator.Steps.{Same-Evolves}
use event_driven_platform.RedisCoordinator.Outcomes.{ClaimOutcome, claim-ClaimOutcome}
use event_driven_platform.RedisCoordinator.Leases.{
  is_holder, RenewOutcome, ReleaseOutcome, renew-RenewOutcome, release-ReleaseOutcome,
}
use event_driven_platform.RedisCoordinator.Histories.{
  IsRefusedClaim, none_not_some, true_not_false, text_current,
}

-- a renewal of `l` that has not lost the lease, if Redis answers
abbrev pub IsKept : ReadExecutionLeaseReference → RenewReadExecutionResult → Type 0
IsKept l (RenewReadExecutionResult.renewed l') = l' ≡ l
IsKept l RenewReadExecutionResult.ownership_lost = ⊥
IsKept l (RenewReadExecutionResult.unavailable reason) = Unit

-- a release that has taken the lease away, if Redis answers
abbrev pub IsGone : ReleaseReadExecutionResult → Option Text → Type 0
IsGone ReleaseReadExecutionResult.released o = o ≡ none
IsGone ReleaseReadExecutionResult.ownership_lost o = ⊥
IsGone (ReleaseReadExecutionResult.unavailable reason) o = Unit

abbrev lease_of :
    ReadExecutionLeaseReference → ClaimReadExecutionResult → ReadExecutionLeaseReference
lease_of l (ClaimReadExecutionResult.acquired l') = l'
lease_of l _ = l

module _ {W Number : Type 0} (redis : RedisClient W Number) (view : View W)
    (laws : RedisLaws redis view) (key_prefix : Text) (w : W) where
  refused_claim :
      (q : ClaimReadExecutionRequest Number) (t : Text) (r : ClaimReadExecutionResult) (w' : W)
      → lease_at redis view key_prefix q.key w ≡ some t
      → ClaimOutcome redis view laws key_prefix w q r w'
      → IsRefusedClaim r × Evolves redis view key_prefix w w'
  refused_claim q t (ClaimReadExecutionResult.acquired l) w' e (v, p, h) =
      absurd (none_not_some (sym h.free ∙ e))
  refused_claim q t ClaimReadExecutionResult.already_in_progress w' e h =
      (tt, Same-Evolves redis view laws key_prefix w w' h)
  refused_claim q t (ClaimReadExecutionResult.unavailable reason) w' e (inl h) = (tt, h)
  refused_claim q t (ClaimReadExecutionResult.unavailable reason) w' e (inr (v, h)) =
      absurd (none_not_some (sym h.free ∙ e))

  IsKept-renewal :
      (q : RenewReadExecutionRequest Number) (r : RenewReadExecutionResult) (w' : W)
      → is_holder redis view laws key_prefix w q.key q.lease ≡ true
      → RenewOutcome redis view laws key_prefix w q r w'
      → IsKept q.lease r
  IsKept-renewal q (RenewReadExecutionResult.renewed l) w' e h = h.1
  IsKept-renewal q RenewReadExecutionResult.ownership_lost w' e h = true_not_false (sym e ∙ h.0)
  IsKept-renewal q (RenewReadExecutionResult.unavailable reason) w' e h = tt

  IsGone-release :
      (q : ReleaseReadExecutionRequest) (r : ReleaseReadExecutionResult) (w' : W)
      → is_holder redis view laws key_prefix w q.key q.lease ≡ true
      → ReleaseOutcome redis view laws key_prefix w q r w'
      → IsGone r (lease_at redis view key_prefix q.key w')
  IsGone-release q ReleaseReadExecutionResult.released w' e h = h.1.0
  IsGone-release q ReleaseReadExecutionResult.ownership_lost w' e h = true_not_false (sym e ∙ h.0)
  IsGone-release q (ReleaseReadExecutionResult.unavailable reason) w' e h = tt

  acquired-lease_at :
      (q : ClaimReadExecutionRequest Number) (l : ReadExecutionLeaseReference)
      (r : ClaimReadExecutionResult) (w' : W)
      → ((l : ReadExecutionLeaseReference)
          → l.owner_id ≡ q.owner_id
          → redis.cjson_encode l.owner_id l.version ≡ serialize_lease l)
      → r ≡ ClaimReadExecutionResult.acquired l
      → ClaimOutcome redis view laws key_prefix w q r w'
      → lease_at redis view key_prefix q.key w' ≡ some (serialize_lease l)
  acquired-lease_at q l (ClaimReadExecutionResult.acquired l') w' agree e (v, p, h) =
      let same : l' ≡ l = ap (lease_of l') e in
      rw (sym same, p)
        (h.lease ∙ ap some (agree (record { owner_id = q.owner_id; version = v }) refl))
  acquired-lease_at q l ClaimReadExecutionResult.already_in_progress w' agree e h = absurd cc
  acquired-lease_at q l (ClaimReadExecutionResult.unavailable reason) w' agree e h = absurd cc

module _ {W Number : Type 0} (redis : RedisClient W Number) (view : View W)
    (laws : RedisLaws redis view) (key_prefix : Text) where
  -- If cjson writes the leases of an owner as JSON.stringify does, a claim that is granted gives its
  -- caller the lease: in every later world where Redis still has it, a claim of the key is refused and
  -- brings no lease; a renewal by the lease is not answered by a loss; and a release by it is not
  -- either, and when it is answered by a release the lease is gone.
  pub acquired_lease-held :
      (w : W) (q : ClaimReadExecutionRequest Number) (l : ReadExecutionLeaseReference)
      → ((l : ReadExecutionLeaseReference)
          → l.owner_id ≡ q.owner_id
          → redis.cjson_encode l.owner_id l.version ≡ serialize_lease l)
      → (claim redis key_prefix q w).0 ≡ ClaimReadExecutionResult.acquired l
      → (w' : W)
      → lease_at redis view key_prefix q.key w'
        ≡ lease_at redis view key_prefix q.key (claim redis key_prefix q w).1
      → (owner_id : Text) (duration : Number)
      → let (r0, w0) =
          claim redis key_prefix
            (record { key = q.key; owner_id = owner_id; lease_duration_ms = duration })
            w' in
        let (r1, w1) =
          renew redis key_prefix
            (record { key = q.key; lease = l; lease_duration_ms = duration })
            w' in
        let (r2, w2) = release redis key_prefix (record { key = q.key; lease = l }) w' in
        (IsRefusedClaim r0 × Evolves redis view key_prefix w' w0)
        × IsKept l r1
        × IsGone r2 (lease_at redis view key_prefix q.key w2)
  acquired_lease-held w q l agree e w' stays owner_id duration =
      let stored =
        stays
        ∙ acquired-lease_at redis view laws key_prefix w q l _ _ agree e
            (claim-ClaimOutcome redis view laws key_prefix w q) in
      let holds = text_current _ (serialize_lease l) stored in
      let again : ClaimReadExecutionRequest Number = record {
        key = q.key;
        owner_id = owner_id;
        lease_duration_ms = duration;
      } in
      let renewal : RenewReadExecutionRequest Number = record {
        key = q.key;
        lease = l;
        lease_duration_ms = duration;
      } in
      let ending : ReleaseReadExecutionRequest = record { key = q.key; lease = l } in
      (
        refused_claim redis view laws key_prefix w' again (serialize_lease l) _ _ stored
            (claim-ClaimOutcome redis view laws key_prefix w' again),
        IsKept-renewal redis view laws key_prefix w' renewal _ _ holds
            (renew-RenewOutcome redis view laws key_prefix w' renewal),
        IsGone-release redis view laws key_prefix w' ending _ _ holds
            (release-ReleaseOutcome redis view laws key_prefix w' ending),
      )
