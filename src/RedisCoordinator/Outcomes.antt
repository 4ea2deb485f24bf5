-- ===== src/RedisCoordinator/Outcomes.antt =====
-- What the answers of claim, renew and release tell of the leases in Redis.
use event_driven_platform.Prelude.{ℕ, Text, List, ◌≡◌, refl, ◌⊎◌, inl, inr}
use event_driven_platform.Coordinator.{ClaimReadExecutionRequest, ClaimReadExecutionResult}
use event_driven_platform.RedisCoordinator.{
  RedisError, RedisClient, lease_key, generation_key, claim_script, claim_result,
  unavailable_reason, claim,
}
use event_driven_platform.RedisCoordinator.Laws.{View, Same, RedisLaws, answered_by-Post}
use event_driven_platform.RedisCoordinator.Fencing.{
  Grant, granted, Evolves, Evolves-Fenced, Fenced, Granted,
}
use event_driven_platform.RedisCoordinator.Grants.{Granted-Fenced, Granted-Fenced_new}
use event_driven_platform.RedisCoordinator.Steps.{
  Same-refl, Same-Evolves, Claimed, claim_script-Claimed,
}

module _ {W Number : Type 0} (redis : RedisClient W Number) (view : View W)
    (laws : RedisLaws redis view) (key_prefix : Text) (w : W) where
  -- An acquired lease is the new one. A refused claim changes nothing. A claim that failed may have
  -- stored a lease that nobody knows of.
  abbrev pub ClaimOutcome : ClaimReadExecutionRequest Number → ClaimReadExecutionResult → W → Type 0
  ClaimOutcome q (ClaimReadExecutionResult.acquired l) w' =
      (v : ℕ) × (l ≡ record { owner_id = q.owner_id; version = v })
      × Granted redis view key_prefix q.key q.owner_id v w w'
  ClaimOutcome q ClaimReadExecutionResult.already_in_progress w' = Same view w w'
  ClaimOutcome q (ClaimReadExecutionResult.unavailable reason) w' =
      Evolves redis view key_prefix w w'
      ⊎ ((v : ℕ) × Granted redis view key_prefix q.key q.owner_id v w w')

  replied :
      (q : ClaimReadExecutionRequest Number) (r : List ℕ) (w' : W)
      → Claimed redis view laws key_prefix w q.key q.owner_id r w'
      → ClaimOutcome q (claim_result q.owner_id r) w'
  unfolding claim_result
  replied q r w' (inl (e, h)) = rw e h
  replied q r w' (inr (v, e, h)) = rw e (v, refl, h)

  lost_grant :
      (q : ClaimReadExecutionRequest Number) (r : List ℕ) (w' : W)
      → Claimed redis view laws key_prefix w q.key q.owner_id r w'
      → Evolves redis view key_prefix w w'
        ⊎ ((v : ℕ) × Granted redis view key_prefix q.key q.owner_id v w w')
  lost_grant q r w' (inl (e, h)) = inl (Same-Evolves redis view laws key_prefix w w' h)
  lost_grant q r w' (inr (v, e, h)) = inr (v, h)

  pub claim-ClaimOutcome :
      (q : ClaimReadExecutionRequest Number)
      → ClaimOutcome q (claim redis key_prefix q w).0 (claim redis key_prefix q w).1
  unfolding claim
  claim-ClaimOutcome q =
      let script =
        claim_script redis (lease_key key_prefix q.key) (generation_key key_prefix) q.owner_id
          (redis.show q.lease_duration_ms) in
      let Q = Claimed redis view laws key_prefix w q.key q.owner_id in
      let R : RedisError → W → Type 0 = λ _ s. Evolves redis view key_prefix w s in
      let E : RedisError → W → Type 0 =
        λ _ s. Same view w s ⊎ (((r : List ℕ) × Q r s) ⊎ ((e : RedisError) × R e s)) in
      answered_by-Post (Same view w) Q E (ClaimOutcome q) (redis.eval script)
        (claim_result q.owner_id) (λ e. ClaimReadExecutionResult.unavailable (unavailable_reason e))
        (laws.eval_law script (Same view w) Q R (
          claim_script-Claimed redis view laws key_prefix w q.key q.owner_id
            (redis.show q.lease_duration_ms)))
        (λ r s h. replied q r s h)
        (λ e s h. elim h [
          | inl h ↦ inl (Same-Evolves redis view laws key_prefix w s h)
          | inr h ↦ elim h [ inl (r, h) ↦ lost_grant q r s h | inr (e, h) ↦ inl h ]
        ])
        w (Same-refl redis view laws key_prefix w)

  ClaimOutcome-Fenced :
      (q : ClaimReadExecutionRequest Number) (r : ClaimReadExecutionResult) (w' : W)
      (gs : List Grant)
      → ClaimOutcome q r w'
      → Fenced redis view key_prefix gs w
      → Fenced redis view key_prefix (granted q.key r gs) w'
  ClaimOutcome-Fenced q (ClaimReadExecutionResult.acquired l) w' gs (v, e, h) f =
      rw e (Granted-Fenced_new redis view key_prefix q.key q.owner_id v w w' h gs f)
  ClaimOutcome-Fenced q ClaimReadExecutionResult.already_in_progress w' gs h f =
      Evolves-Fenced redis view key_prefix gs (Same-Evolves redis view laws key_prefix w w' h) f
  ClaimOutcome-Fenced q (ClaimReadExecutionResult.unavailable reason) w' gs (inl h) f =
      Evolves-Fenced redis view key_prefix gs h f
  ClaimOutcome-Fenced q (ClaimReadExecutionResult.unavailable reason) w' gs (inr (v, h)) f =
      Granted-Fenced redis view key_prefix q.key q.owner_id v w w' h gs f

  pub claim-Fenced :
      (q : ClaimReadExecutionRequest Number) (gs : List Grant)
      → Fenced redis view key_prefix gs w
      → Fenced redis view key_prefix
          (granted q.key (claim redis key_prefix q w).0 gs)
          (claim redis key_prefix q w).1
  claim-Fenced q gs f =
      ClaimOutcome-Fenced q (claim redis key_prefix q w).0 (claim redis key_prefix q w).1 gs
        (claim-ClaimOutcome q) f
