-- ===== src/RedisCoordinator/Leases.antt =====
-- Renewals and releases, and the leases in every history: an outdated lease is never renewed and
-- never released.
use event_driven_platform.Prelude.{ℕ, Text, Bool, true, false, ◌≡◌, refl, inl, inr}
use event_driven_platform.Coordinator.{
  ReadExecutionLeaseReference, RenewReadExecutionRequest, RenewReadExecutionResult,
  ReleaseReadExecutionRequest, ReleaseReadExecutionResult,
}
use event_driven_platform.ReadCacheInMemory.{TenantScopedReadCacheKey}
use event_driven_platform.RedisCoordinator.{
  RedisClient, channel_key, serialize_lease, renew_result, release_result, unavailable_reason,
  renew, release,
}
use event_driven_platform.RedisCoordinator.Laws.{View, Same, RedisLaws, answered_by-Post}
use event_driven_platform.RedisCoordinator.Fencing.{Evolves}
use event_driven_platform.RedisCoordinator.Steps.{Same-refl, Same-Evolves}
use event_driven_platform.RedisCoordinator.Answers.{
  current, Tested, Failed, Deleted, evaluated, renew_script-Tested, release_script-Tested,
}

module _ {W Number : Type 0} (redis : RedisClient W Number) (view : View W)
    (laws : RedisLaws redis view) (key_prefix : Text) (w : W) where
  abbrev pub is_holder : TenantScopedReadCacheKey → ReadExecutionLeaseReference → Bool
  is_holder key l = current redis view laws key_prefix w key (serialize_lease l)

  abbrev pub RenewOutcome : RenewReadExecutionRequest Number → RenewReadExecutionResult → W → Type 0
  RenewOutcome q (RenewReadExecutionResult.renewed l) w' =
      (is_holder q.key q.lease ≡ true) × (l ≡ q.lease) × Evolves redis view key_prefix w w'
  RenewOutcome q RenewReadExecutionResult.ownership_lost w' =
      (is_holder q.key q.lease ≡ false) × Same view w w'
  RenewOutcome q (RenewReadExecutionResult.unavailable reason) w' =
      Failed redis view laws key_prefix w q.key (serialize_lease q.lease) w'

  abbrev pub ReleaseOutcome : ReleaseReadExecutionRequest → ReleaseReadExecutionResult → W → Type 0
  ReleaseOutcome q ReleaseReadExecutionResult.released w' =
      (is_holder q.key q.lease ≡ true)
      × Deleted redis view laws key_prefix w q.key (serialize_lease q.lease) w'
  ReleaseOutcome q ReleaseReadExecutionResult.ownership_lost w' =
      (is_holder q.key q.lease ≡ false) × Same view w w'
  ReleaseOutcome q (ReleaseReadExecutionResult.unavailable reason) w' =
      Failed redis view laws key_prefix w q.key (serialize_lease q.lease) w'

  renew_replied :
      (q : RenewReadExecutionRequest Number) (n : ℕ) (w' : W)
      → Tested redis view laws key_prefix w q.key
          (serialize_lease q.lease)
          (Evolves redis view key_prefix w)
          n
          w'
      → RenewOutcome q (renew_result q.lease n) w'
  unfolding renew_result
  renew_replied q n w' (inl (c, e, s)) = rw e (c, s)
  renew_replied q n w' (inr (c, e, h)) = rw e (c, refl, h)

  release_replied :
      (q : ReleaseReadExecutionRequest) (n : ℕ) (w' : W)
      → Tested redis view laws key_prefix w q.key
          (serialize_lease q.lease)
          (Deleted redis view laws key_prefix w q.key (serialize_lease q.lease))
          n
          w'
      → ReleaseOutcome q (release_result n) w'
  unfolding release_result
  release_replied q n w' (inl (c, e, s)) = rw e (c, s)
  release_replied q n w' (inr (c, e, h)) = rw e (c, h)

  pub renew-RenewOutcome :
      (q : RenewReadExecutionRequest Number)
      → RenewOutcome q (renew redis key_prefix q w).0 (renew redis key_prefix q w).1
  unfolding renew
  renew-RenewOutcome q =
      let lease = serialize_lease q.lease in
      let After = Evolves redis view key_prefix w in
      answered_by-Post (Same view w) (Tested redis view laws key_prefix w q.key lease After)
        (λ _. Failed redis view laws key_prefix w q.key lease) (RenewOutcome q) _
        (renew_result q.lease) (λ e. RenewReadExecutionResult.unavailable (unavailable_reason e))
        (evaluated redis view laws key_prefix w q.key lease After (λ s h. h) _
          (renew_script-Tested redis view laws key_prefix w q.key lease
            (redis.show q.lease_duration_ms)))
        (λ n s h. renew_replied q n s h) (λ e s h. h) w (Same-refl redis view laws key_prefix w)

  pub release-ReleaseOutcome :
      (q : ReleaseReadExecutionRequest)
      → ReleaseOutcome q (release redis key_prefix q w).0 (release redis key_prefix q w).1
  unfolding release
  release-ReleaseOutcome q =
      let lease = serialize_lease q.lease in
      let After = Deleted redis view laws key_prefix w q.key lease in
      answered_by-Post (Same view w) (Tested redis view laws key_prefix w q.key lease After)
        (λ _. Failed redis view laws key_prefix w q.key lease) (ReleaseOutcome q) _ release_result
        (λ e. ReleaseReadExecutionResult.unavailable (unavailable_reason e))
        (evaluated redis view laws key_prefix w q.key lease After (λ s h. h.1) _
          (release_script-Tested redis view laws key_prefix w q.key lease
            (channel_key key_prefix q.key)))
        (λ n s h. release_replied q n s h) (λ e s h. h) w (Same-refl redis view laws key_prefix w)

  Failed-Evolves :
      (key : TenantScopedReadCacheKey) (lease : Text) (w' : W)
      → Failed redis view laws key_prefix w key lease w'
      → Evolves redis view key_prefix w w'
  Failed-Evolves key lease w' (inl s) = Same-Evolves redis view laws key_prefix w w' s
  Failed-Evolves key lease w' (inr (c, h)) = h

  pub RenewOutcome-Evolves :
      (q : RenewReadExecutionRequest Number) (r : RenewReadExecutionResult) (w' : W)
      → RenewOutcome q r w'
      → Evolves redis view key_prefix w w'
  RenewOutcome-Evolves q (RenewReadExecutionResult.renewed l) w' h = h.2
  RenewOutcome-Evolves q RenewReadExecutionResult.ownership_lost w' h =
      Same-Evolves redis view laws key_prefix w w' h.1
  RenewOutcome-Evolves q (RenewReadExecutionResult.unavailable reason) w' h =
      Failed-Evolves q.key (serialize_lease q.lease) w' h

  pub ReleaseOutcome-Evolves :
      (q : ReleaseReadExecutionRequest) (r : ReleaseReadExecutionResult) (w' : W)
      → ReleaseOutcome q r w'
      → Evolves redis view key_prefix w w'
  ReleaseOutcome-Evolves q ReleaseReadExecutionResult.released w' h = h.1.1
  ReleaseOutcome-Evolves q ReleaseReadExecutionResult.ownership_lost w' h =
      Same-Evolves redis view laws key_prefix w w' h.1
  ReleaseOutcome-Evolves q (ReleaseReadExecutionResult.unavailable reason) w' h =
      Failed-Evolves q.key (serialize_lease q.lease) w' h
