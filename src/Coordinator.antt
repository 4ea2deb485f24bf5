-- ===== src/Coordinator.antt =====
-- packages/read-execution-coordinator: the requests and answers of a coordinator of reads.
use event_driven_platform.Prelude.{ℕ, Text, Bool}
use event_driven_platform.ReadCacheInMemory.{TenantScopedReadCacheKey}

pub record ReadExecutionLeaseReference : Type 0 where
  pub owner_id : Text
  pub version : ℕ

pub record ClaimReadExecutionRequest (Number : Type 0) : Type 0 where
  pub key : TenantScopedReadCacheKey
  pub owner_id : Text
  pub lease_duration_ms : Number

pub data ClaimReadExecutionResult : Type 0 where
  acquired : (lease : ReadExecutionLeaseReference) → ClaimReadExecutionResult
  already_in_progress : ClaimReadExecutionResult
  unavailable : (reason : Text) → ClaimReadExecutionResult

-- `signal` tells whether a signal was passed
pub record WaitForReadExecutionRequest (Number : Type 0) : Type 0 where
  pub key : TenantScopedReadCacheKey
  pub timeout_ms : Number
  pub signal : Bool

pub data WaitForReadExecutionResult : Type 0 where
  released timed_out cancelled : WaitForReadExecutionResult
  unavailable : (reason : Text) → WaitForReadExecutionResult

pub record RenewReadExecutionRequest (Number : Type 0) : Type 0 where
  pub key : TenantScopedReadCacheKey
  pub lease : ReadExecutionLeaseReference
  pub lease_duration_ms : Number

pub data RenewReadExecutionResult : Type 0 where
  renewed : (lease : ReadExecutionLeaseReference) → RenewReadExecutionResult
  ownership_lost : RenewReadExecutionResult
  unavailable : (reason : Text) → RenewReadExecutionResult

pub record ReleaseReadExecutionRequest : Type 0 where
  pub key : TenantScopedReadCacheKey
  pub lease : ReadExecutionLeaseReference

pub data ReleaseReadExecutionResult : Type 0 where
  released ownership_lost : ReleaseReadExecutionResult
  unavailable : (reason : Text) → ReleaseReadExecutionResult
