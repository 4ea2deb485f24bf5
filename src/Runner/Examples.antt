-- ===== src/Runner/Examples.antt =====
-- Tests of the Runner in a small world: a store of one entry, a clock that ticks, and a handler that
-- fails once. The witnesses of the theorems about the Runner stand here.
use event_driven_platform.Prelude.{
  ℕ, ◌+◌, ◌*◌, ◌≡◌, refl, true, false, none, some, [], ◌∷◌, ◌++◌, text, decimal, ltb, if◌then◌else◌,
}
use event_driven_platform.Effects.{ok, err}
use event_driven_platform.Effects.Hoare.{Post}
use event_driven_platform.Domain.{Reference, ActorOrigin, user, Operation, OperationResult, success}
use event_driven_platform.Execution.{execution_failure}
use event_driven_platform.ExecutionLog.{
  AttemptBase, InProgressExecutionLogEntry, CompletedExecutionLogEntry, FailedExecutionLogEntry,
  EntryBase, claimed, CompleteExecutionRequest, CompleteExecutionResult, FailExecutionRequest,
  FailExecutionResult,
}
use event_driven_platform.Command.{Command}
use event_driven_platform.Outbox.{create_many_envelopes, create_many_records}
use event_driven_platform.Retry.{Numbers}
use event_driven_platform.Runner.Errors.{foreign}
use event_driven_platform.Runner.Environment.{Dependencies, State, Method, TimeoutResult}
use event_driven_platform.Runner.Timeout.{
  timer_fired, work_done, execute_with_timeout, execute_with_timeout-settled,
}
use event_driven_platform.Runner.Policies.{Runner}
use event_driven_platform.Runner.Detailed.{execute_detailed}
use event_driven_platform.Runner.Protocol.{On}
use event_driven_platform.Runner.Protocol.Claims.{ReturnPost, ThrowPost}
use event_driven_platform.Runner.Protocol.Conformance.{execute_detailed-Conforms}

-- the numbers that the delays of the examples use
abbrev natural_numbers : Numbers ℕ
natural_numbers = record {
  zero = 0;
  two = 2;
  is_nan = λ n. false;
  is_finite = λ n. true;
  is_positive = λ n. ltb 0 n;
  maximum = λ a b. if ltb a b then b else a;
  minimum = λ a b. if ltb a b then a else b;
  times = λ a b. a * b;
  power = λ a k. a;
}

-- the world: how often the clock was read, and how often the handler ran
abbrev World : Type 0
World = ℕ × ℕ

abbrev reference : Reference
reference = record { type = text "merchant"; id = text "m-1" }

abbrev no_origin : ActorOrigin
no_origin = record {
  ip_address = none;
  country_code = none;
  region = none;
  city = none;
  latitude = none;
  longitude = none;
  timezone = none;
  environment = none;
  host = none;
  instance_name = none;
}

abbrev create_wallet : Operation
create_wallet = record {
  name = text "CreateWallet";
  schema_version = 1;
  intent = record { id = text "intent-1"; key = text "wallet:create:v1" };
  actor = record { type = user; id = text "user-1"; origin = no_origin };
  tenant = reference;
  subject = reference;
  aggregate = reference;
  payload = text "EUR";
}

abbrev base : EntryBase
base = record {
  execution_id = text "execution-1";
  intent_id = text "intent-1";
  operation = create_wallet;
  attempt_count = 1;
  created_at = 0;
}

abbrev attempt_base : ℕ → AttemptBase
attempt_base n = record {
  attempt_id = decimal n;
  execution_id = text "execution-1";
  attempt_number = n;
  correlation_id = text "flow-1";
  runner_id = text "runner-1";
  lease_version = n;
  started_at = n;
}

abbrev entry : ℕ → InProgressExecutionLogEntry
entry n = record {
  base = base;
  latest_attempt = attempt_base n;
  lease = record { owner_id = text "runner-1"; version = n; acquired_at = n; expires_at = n + 100 };
}

abbrev created : OperationResult
created =
    success (text "wallet-1")
      (record { name = text "wallet.created"; schema_version = 1; payload = text "wallet-1" } ∷ [])

abbrev completed_entry : CompleteExecutionRequest → CompletedExecutionLogEntry
completed_entry q = record {
  base = base;
  latest_attempt = attempt_base 1;
  attempt_finished_at = q.finished_at;
  result = q.result;
  finished_at = q.finished_at;
}

abbrev failed_entry : FailExecutionRequest → FailedExecutionLogEntry
failed_entry q = record {
  base = base;
  latest_attempt = attempt_base 1;
  status = q.status;
  failure = q.failure;
  attempt_finished_at = q.finished_at;
  finished_at = q.finished_at;
}

abbrev tick : World → ℕ × World
tick w = (w.0, (w.0 + 1, w.1))

-- fails with a retryable failure the first time
abbrev flaky_handler : Operation → Method World OperationResult
flaky_handler op w = (
  if ltb w.1 1
      then err (
          foreign (
            execution_failure
              (record { code = text "busy"; message = text "busy"; retryable = true })))
      else ok created,
  (w.0, w.1 + 1),
)

abbrev dependencies : Dependencies World ℕ
dependencies = record {
  numbers = natural_numbers;
  encode_uri_component = λ t. t;
  random = λ w. (0, w);
  now = tick;
  create_execution_id = λ id. ok (text "execution-1");
  claim = λ q w. (ok (claimed (entry w.0)), w);
  complete = λ q w. (ok (CompleteExecutionResult.completed (completed_entry q)), w);
  fail = λ q w. (ok (FailExecutionResult.failed (failed_entry q)), w);
  execution_timeout = λ work ms w. (ok TimeoutResult.timed_out, w);
  guard_evaluator = none;
  observer = λ o w. (ok tt, w);
  rate_limiter = none;
  wait = λ ms w. (ok tt, w);
  resolve = λ op. ok flaky_handler;
  begin_transaction = λ w. (ok 1, w);
  commit_transaction = λ t w. (ok tt, w);
  roll_back_transaction = λ t w. w;
  create_envelopes = λ op correlation_id events.
      create_many_envelopes (λ d. ok d.event_name) tick op correlation_id events;
  create_records =
      λ envelopes w. let (records, w') = create_many_records tick envelopes w in (ok records, w');
  append = λ records w. (ok tt, w);
}

abbrev runner : Runner World ℕ
runner = record {
  dependencies = dependencies;
  lease_owner_id = text "runner-1";
  lease_duration_ms = 60000;
}

abbrev twice : Command ℕ
twice = record {
  operation = create_wallet;
  correlation_id = text "flow-1";
  options = some (record {
    timeout_ms = none;
    retry = some (record { max_attempts = 2; strategy = none });
    rate_limit = none;
    guards = none;
  });
}

abbrev start : State World ℕ
start = record { world = (0, 0); slot = none; trace = [] }

-- the first attempt fails, is recorded, and the second one is committed
retried : (execute_detailed runner twice start).1.world.1 ≡ 2
unfolding execute_detailed create_many_envelopes create_many_records
retried = refl

execute_detailed-Conforms_example :
    Post {S = State World ℕ}
      (λ x. On (ReturnPost x))
      (λ _. On ThrowPost)
      (execute_detailed runner twice start).0
      (execute_detailed runner twice start).1
execute_detailed-Conforms_example = execute_detailed-Conforms runner twice start refl

execute_with_timeout-settled_example :
    execute_with_timeout {E = ℕ} {A = ℕ} ([] ++ timer_fired ∷ work_done 5 ∷ [])
    ≡ some (ok TimeoutResult.timed_out)
execute_with_timeout-settled_example = execute_with_timeout-settled [] (work_done 5 ∷ [])
