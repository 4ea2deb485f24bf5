-- ===== src/Execution.antt =====
-- packages/execution: leases, failures, and the failure that a thrown value stands for.
-- Timestamps are the numbers of milliseconds that `Date.parse` gives for the source's texts.
use event_driven_platform.Prelude.{ℕ, ◌-◌, Text, text, Bool, false}

abbrev pub Timestamp : Type 0
Timestamp = ℕ

-- `Math.max(0, Date.parse(finished) - Date.parse(started))`: subtraction on ℕ stops at 0
abbrev pub duration : Timestamp → Timestamp → ℕ
duration started finished = finished - started

pub record ExecutionLeaseReference : Type 0 where
  pub owner_id : Text
  pub version : ℕ

pub record ExecutionLease : Type 0 where
  pub owner_id : Text
  pub version : ℕ
  pub acquired_at : Timestamp
  pub expires_at : Timestamp

pub record ExecutionFailure : Type 0 where
  pub code : Text
  pub message : Text
  pub retryable : Bool

-- What a `catch` can see: an ExecutionFailureError, another Error, or any other value.
pub data Thrown : Type 0 where
  execution_failure : ExecutionFailure → Thrown
  plain_error : (message : Text) → Thrown
  other_value : Thrown

unfoldable pub normalize_execution_failure : Thrown → ExecutionFailure
normalize_execution_failure (execution_failure f) = f
normalize_execution_failure (plain_error message) = record {
  code = text "unexpected-execution-error";
  message = message;
  retryable = false;
}
normalize_execution_failure other_value = record {
  code = text "unexpected-execution-error";
  message = text "An unknown execution error occurred.";
  retryable = false;
}
