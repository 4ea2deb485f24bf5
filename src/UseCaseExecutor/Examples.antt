-- ===== src/UseCaseExecutor/Examples.antt =====
-- A use case that runs under a granted lease, and one that fails, in a world that counts the calls of
-- the clock. The witness of the theorem about the use case executor stands here.
use event_driven_platform.Prelude.{
  ℕ, ◌+◌, ◌≡◌, refl, Text, text, Bool, true, false, [], if◌then◌else◌,
}
use event_driven_platform.Effects.{ok, err}
use event_driven_platform.Execution.{plain_error, ExecutionLease}
use event_driven_platform.UseCaseExecutor.{
  ClaimUseCaseExecutionResult, CompleteUseCaseExecutionResult, ReleaseUseCaseExecutionResult,
  foreign,
}
use event_driven_platform.UseCaseExecutor.Executor.{
  UseCaseExecutorDependencies, UseCaseExecutionRequest, UseCaseState, execute_use_case,
}
use event_driven_platform.UseCaseExecutor.Script.{Script, effects}
use event_driven_platform.UseCaseExecutor.Script.Conformance.{execute_use_case-Script}

abbrev lease : ExecutionLease
lease = record { owner_id = text "executor-1"; version = 1; acquired_at = 0; expires_at = 30000 }

abbrev dependencies : UseCaseExecutorDependencies ℕ Text
dependencies = record {
  now = λ w. (w, w + 1);
  create_execution_id = λ id. ok (text "execution-1");
  claim = λ q w. (ok (ClaimUseCaseExecutionResult.claimed lease), w);
  complete = λ q w. (ok (CompleteUseCaseExecutionResult.completed q.completed_at), w);
  release = λ q w. (ok (ReleaseUseCaseExecutionResult.released q.released_at), w);
  observer = λ o w. (ok tt, w);
  lease_owner_id = text "executor-1";
}

abbrev request : Bool → UseCaseExecutionRequest ℕ Text Text
request fails = record {
  name = text "open-account";
  use_case = λ input context w.
      (if fails then err (foreign (plain_error (text "refused"))) else ok input, w);
  input = text "account-1";
  context = record {
    intent = record { id = text "intent-1"; key = text "account:open:v1" };
    correlation_id = text "flow-1";
  };
}

abbrev start : UseCaseState ℕ Text
start = record { world = 0; calls = [] }

returned : (execute_use_case dependencies (request false) start).0 ≡ ok (text "account-1")
unfolding execute_use_case
returned = refl

rethrown :
    (execute_use_case dependencies (request true) start).0
    ≡ err (foreign (plain_error (text "refused")))
unfolding execute_use_case
rethrown = refl

execute_use_case-Script_example :
    Script
      (request true).context.intent
      (text "flow-1")
      (text "execution-1")
      (text "executor-1")
      (effects (execute_use_case dependencies (request true) start).1.calls)
      (execute_use_case dependencies (request true) start).0
execute_use_case-Script_example =
    execute_use_case-Script dependencies (request true) (text "execution-1") start refl refl
