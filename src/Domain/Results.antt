-- ===== src/Domain/Results.antt =====
-- packages/operation-result: the three outcomes of an operation handler, and their guards.
use event_driven_platform.Prelude.{ℕ, Text, List, [], Bool, true, false}

pub record Event : Type 0 where
  pub name : Text
  pub schema_version : ℕ
  pub payload : Text

pub data OperationResult : Type 0 where
  success : (data_value : Text) (events : List Event) → OperationResult
  committed_rejection : (reason data_value : Text) (events : List Event) → OperationResult
  rolled_back_rejection : (reason data_value : Text) → OperationResult

-- `result.events`: a rolled back rejection has the empty tuple
abbrev pub events : OperationResult → List Event
events (success d es) = es
events (committed_rejection r d es) = es
events (rolled_back_rejection r d) = []

unfoldable pub is_successful_operation_result : OperationResult → Bool
is_successful_operation_result (success d es) = true
is_successful_operation_result _ = false

unfoldable pub is_operation_rejection : OperationResult → Bool
is_operation_rejection (success d es) = false
is_operation_rejection _ = true

unfoldable pub is_committed_operation_rejection : OperationResult → Bool
is_committed_operation_rejection (committed_rejection r d es) = true
is_committed_operation_rejection _ = false

unfoldable pub is_rolled_back_operation_rejection : OperationResult → Bool
is_rolled_back_operation_rejection (rolled_back_rejection r d) = true
is_rolled_back_operation_rejection _ = false
