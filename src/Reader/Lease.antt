-- ===== src/Reader/Lease.antt =====
-- The lease protocol of a coordinated read, as an automaton over the calls that a read makes.
use event_driven_platform.Prelude.{ℕ, Bool, true, false, ◌≡◌, refl, List, [], ◌∷◌}
use event_driven_platform.Effects.{ok}
use event_driven_platform.Coordinator.{
  ReadExecutionLeaseReference, ClaimReadExecutionResult, acquired, RenewReadExecutionResult,
}
use event_driven_platform.Reader.Environment.{
  ReaderCall, source_answered, cache_written, flight_joined, claim_answered, wait_answered,
  renew_answered, release_answered, ran_out_of_fuel,
}
pub mod Steps
pub mod Reads
pub mod Renewals
pub mod Publication
pub mod Flights
pub mod Caches
pub mod Conformance

-- how far the owner of a lease is: it has no result of the source yet, it has one, or it has begun to
-- write one to the cache levels
pub data Stage : Type 0 where
  without_result with_result publishing : Stage

-- `held lease lost stage`: a lease is held; whether a renewal has failed since it was acquired
pub data LeasePhase : Type 0 where
  free : LeasePhase
  held : (lease : ReadExecutionLeaseReference) → (lost : Bool) → (stage : Stage) → LeasePhase

abbrev pub after_renew : LeasePhase → RenewReadExecutionResult → LeasePhase
after_renew free r = free
after_renew (held l b s) (RenewReadExecutionResult.renewed l') = held l b s
after_renew (held l b s) RenewReadExecutionResult.ownership_lost = held l true s
after_renew (held l b s) (RenewReadExecutionResult.unavailable reason) = held l true s

abbrev pub sourced : LeasePhase → LeasePhase
sourced free = free
sourced (held l b s) = held l b with_result

abbrev pub written : LeasePhase → LeasePhase
written (held l b with_result) = held l b publishing
written p = p

abbrev pub lease_next : {A Number : Type 0} → LeasePhase → ReaderCall A Number → LeasePhase
lease_next p (claim_answered (ok (acquired l))) = held l false without_result
lease_next p (renew_answered q r) = after_renew p r
lease_next p (source_answered (ok a)) = sourced p
lease_next p (cache_written i v r) = written p
lease_next p (release_answered q r) = free
lease_next p _ = p

-- no result of the source is begun to be written to the cache levels under a lease that is known to be
-- lost
abbrev pub IsWritable : LeasePhase → Type 0
IsWritable (held l true with_result) = ⊥
IsWritable _ = Unit

abbrev pub IsRenewable : LeasePhase → ReadExecutionLeaseReference → Type 0
IsRenewable (held l false s) l' = l ≡ l'
IsRenewable _ l' = ⊥

abbrev pub IsHeld : LeasePhase → ReadExecutionLeaseReference → Type 0
IsHeld (held l b s) l' = l ≡ l'
IsHeld free l' = ⊥

abbrev pub IsFree : LeasePhase → Type 0
IsFree free = Unit
IsFree (held l b s) = ⊥

abbrev pub LeaseAllowed : {A Number : Type 0} → LeasePhase → ReaderCall A Number → Type 0
LeaseAllowed p (claim_answered r) = IsFree p
LeaseAllowed p (wait_answered r) = IsFree p
LeaseAllowed p (flight_joined r) = IsFree p
LeaseAllowed p (cache_written i v r) = IsWritable p
LeaseAllowed p (renew_answered q r) = IsRenewable p q.lease
LeaseAllowed p (release_answered q r) = IsHeld p q.lease
LeaseAllowed p _ = Unit

abbrev pub lease_phase : {A Number : Type 0} → List (ReaderCall A Number) → LeasePhase
lease_phase [] = free
lease_phase (c ∷ t) = lease_next (lease_phase t) c

abbrev pub LeaseConforms : {A Number : Type 0} → List (ReaderCall A Number) → Type 0
LeaseConforms [] = Unit
LeaseConforms (c ∷ t) = LeaseConforms t × LeaseAllowed (lease_phase t) c

abbrev pub AtLease : {A Number : Type 0} → LeasePhase → List (ReaderCall A Number) → Type 0
AtLease p t = LeaseConforms t × (lease_phase t ≡ p)
