-- ===== src/Reader/Examples.antt =====
-- Tests of the Reader in a small world: a clock that ticks, a handler that fails once, one shared cache
-- level that is empty, and a coordinator that grants every claim. The witnesses of the theorems about
-- the Reader stand here.
use event_driven_platform.Prelude.{
  ℕ, ◌≤◌, ◌+◌, ◌*◌, ◌≡◌, refl, true, false, none, some, Option, List, [], ◌∷◌, text, ltb,
  if◌then◌else◌,
}
use event_driven_platform.Effects.{ok, err}
use event_driven_platform.Effects.Traced.{Traced}
use event_driven_platform.Domain.{Reference, ActorOrigin, user}
use event_driven_platform.Execution.{execution_failure}
use event_driven_platform.Command.{RetryOptions}
use event_driven_platform.Coordinator.{
  ReadExecutionLeaseReference, acquired, WaitForReadExecutionResult, RenewReadExecutionResult,
  ReleaseReadExecutionResult,
}
use event_driven_platform.ReadCacheInMemory.{TenantScopedReadCacheKey, CacheReadResult}
use event_driven_platform.Retry.{Numbers}
use event_driven_platform.Reader.Errors.{ReaderError, foreign, read_cancelled}
use event_driven_platform.Reader.Environment.{
  Read, ReaderMethod, QueryCacheLevel, CacheScope, QueryCachePlan, Query, resolved,
  ReaderObservationContext, ReadExecutionCoordinator, DefaultReaderDependencies, ReaderCall,
  cache_written, renew_answered,
}
use event_driven_platform.Reader.Source.{execute_source, execute_read_with_retry}
use event_driven_platform.JavaScript.{same}
use event_driven_platform.Reader.InFlight
use event_driven_platform.Reader.InFlight.{
  LocalReadInFlight, Running, joined, led, identity_of, run, after_run, Reachable, runs,
}
use event_driven_platform.Reader.InFlight.SingleFlight.{RoleFits, run-single_flight}
use event_driven_platform.Reader.Cancelled.{ObservedSince, execute_query-cancelled}
use event_driven_platform.Reader.Timeout.{
  timer_fired, work_done, completed, execute_read_with_timeout, execute_read_with_timeout-settled,
}
use event_driven_platform.Reader.Execute.{execute_query}
use event_driven_platform.Reader.Attempts.{attempt_limit}
use event_driven_platform.Reader.Budget.{
  source_calls, fuel_misses, execute_read_with_retry-source_calls,
}
use event_driven_platform.Reader.Lease.{free, AtLease}
use event_driven_platform.Reader.Lease.Conformance.{execute_query-AtLease}

abbrev natural_numbers : Numbers ℕ
natural_numbers = record {
  zero = 0;
  two = 2;
  is_nan = λ n. false;
  is_finite = λ n. true;
  is_positive = λ n. ltb 0 n;
  maximum = λ a b. if ltb a b then b else a;
  minimum = λ a b. if ltb a b then a else b;
  times = λ a b. a * b;
  power = λ a k. a;
}

-- the world: how often the clock was read, and how often the handler ran
abbrev World : Type 0
World = ℕ × ℕ

abbrev merchant : Reference
merchant = record { type = text "merchant"; id = text "m-1" }

abbrev no_origin : ActorOrigin
no_origin = record {
  ip_address = none;
  country_code = none;
  region = none;
  city = none;
  latitude = none;
  longitude = none;
  timezone = none;
  environment = none;
  host = none;
  instance_name = none;
}

abbrev get_balance : Read
get_balance = record {
  name = text "GetBalance";
  actor = record { type = user; id = text "user-1"; origin = no_origin };
  tenant = merchant;
  parameters = text "wallet-1";
}

abbrev tick : World → ℕ × World
tick w = (w.0, (w.0 + 1, w.1))

-- fails with a retryable failure the first time, and answers 42 then
abbrev flaky_handler : Read → ReaderMethod World ℕ
flaky_handler read w = (
  if ltb w.1 1
      then err (
          foreign (
            execution_failure
              (record { code = text "busy"; message = text "busy"; retryable = true })))
      else ok 42,
  (w.0, w.1 + 1),
)

abbrev lease : ReadExecutionLeaseReference
lease = record { owner_id = text "owner-1"; version = 1 }

abbrev coordinator : ReadExecutionCoordinator World ℕ
coordinator = record {
  claim = λ q w. (ok (acquired lease), w);
  wait = λ q w. (ok WaitForReadExecutionResult.released, w);
  renew = λ q w. (RenewReadExecutionResult.renewed q.lease, w);
  release = λ q w. (ok ReleaseReadExecutionResult.released, w);
}

abbrev dependencies : DefaultReaderDependencies World ℕ ℕ
dependencies = record {
  numbers = natural_numbers;
  random = λ w. (0, w);
  now = tick;
  observer = λ o w. (ok tt, w);
  resolve = λ read. ok (resolved flaky_handler []);
  retry_delay = λ ms w. (ok tt, w);
  coordinator = some coordinator;
  create_owner_id = λ w. (text "owner-1", w);
  active_flight = λ key w. (none, w);
  timer_rounds = λ w. (1, w);
  aborted = λ w. (false, w);
  aborted_first = λ w. (false, w);
  timer_first = λ ms w. (false, w);
}

abbrev twice : RetryOptions ℕ
twice = record { max_attempts = 2; strategy = none }

abbrev shared_level : QueryCacheLevel World ℕ
shared_level = record {
  scope = CacheScope.shared;
  reader = λ key w. (ok CacheReadResult.miss, w);
  writer = some (λ key value w. (ok tt, w));
}

abbrev balance_key : TenantScopedReadCacheKey
balance_key = record {
  tenant = merchant;
  key = record {
    namespace = text "wallet";
    version = text "v1";
    partition = text "balance";
    value = text "wallet-1";
  };
}

abbrev plan : QueryCachePlan World ℕ ℕ
plan = record {
  key = balance_key.key;
  levels = shared_level ∷ shared_level ∷ [];
  coordination = some 1000;
}

abbrev balance_query : Query World ℕ ℕ
balance_query = record {
  read = get_balance;
  correlation_id = text "flow-1";
  options =
      some (record { timeout_ms = some 500; signal = true; cache = some plan; retry = some twice });
}

abbrev context : ReaderObservationContext
context = record { read = text "GetBalance"; tenant = merchant; correlation_id = text "flow-1" }

abbrev start : Traced World (ReaderCall ℕ ℕ)
start = record { world = (0, 0); calls = [] }

-- the owner of the flight reads the source, again after the failure, and returns its answer
owner_reads : (execute_query dependencies 1 balance_query start).0 ≡ ok 42
unfolding execute_query
owner_reads = refl

-- a coordinator that loses the lease while the result is written to the last level
abbrev losing_coordinator : ReadExecutionCoordinator World ℕ
losing_coordinator = record coordinator {
  renew = λ q w. (
    if ltb w.0 22
        then RenewReadExecutionResult.renewed q.lease
        else RenewReadExecutionResult.ownership_lost,
    w,
  );
}

abbrev losing_dependencies : DefaultReaderDependencies World ℕ ℕ
losing_dependencies = record dependencies { coordinator = some losing_coordinator }

-- the levels that are written, and the renewals that fail, newest first: `none` is such a renewal
abbrev writes_and_losses : List (ReaderCall ℕ ℕ) → List (Option ℕ)
writes_and_losses [] = []
writes_and_losses (cache_written index value r ∷ t) = some index ∷ writes_and_losses t
writes_and_losses (renew_answered q RenewReadExecutionResult.ownership_lost ∷ t) =
    none ∷ writes_and_losses t
writes_and_losses (c ∷ t) = writes_and_losses t

-- the loss falls into the write to the last level; the other level is written, and the read throws
lost_between_levels :
    let (r, s') = execute_query losing_dependencies 1 balance_query start in
    (r ≡ err ReaderError.ownership_lost)
    × (writes_and_losses s'.calls ≡ some 0 ∷ none ∷ some 1 ∷ [])
unfolding execute_query
lost_between_levels = (refl, refl)

execute_query-AtLease_example :
    AtLease free (execute_query losing_dependencies 1 balance_query start).1.calls
execute_query-AtLease_example = execute_query-AtLease losing_dependencies 1 balance_query start refl

execute_read_with_retry-source_calls_example :
    let s' =
      (execute_read_with_retry dependencies context
        (some twice)
        (execute_source dependencies get_balance context)
        start).1 in
    (source_calls s'.calls ≤ 0 + attempt_limit (some twice)) × (fuel_misses s'.calls ≡ 0)
execute_read_with_retry-source_calls_example =
    execute_read_with_retry-source_calls dependencies context (some twice) get_balance start

-- two callers of one key, and the end of the flight
abbrev second_state : LocalReadInFlight
second_state = (run balance_key (record { flights = []; started = 0 })).1

abbrev second_running : Running
second_running = after_run balance_key (led 0) (λ f. none)

second_reachable : Reachable second_state second_running
unfolding run
second_reachable = runs balance_key InFlight.start

run-single_flight_example : RoleFits second_running balance_key (run balance_key second_state).0
run-single_flight_example = run-single_flight second_reachable balance_key

second_joins : (run balance_key second_state).0 ≡ joined 0
unfolding run same identity_of text
second_joins = refl

execute_read_with_timeout-settled_example :
    execute_read_with_timeout {E = ℕ} {A = ℕ} (work_done 5 ∷ timer_fired ∷ [])
    ≡ some (ok (completed 5))
execute_read_with_timeout-settled_example = execute_read_with_timeout-settled (work_done 5 ∷ []) []

abbrev aborted_dependencies : DefaultReaderDependencies World ℕ ℕ
aborted_dependencies = record dependencies { aborted = λ w. (true, w) }

execute_query-cancelled_example :
    let (r, s') = execute_query aborted_dependencies 1 balance_query start in
    (r ≡ err read_cancelled) × ObservedSince start.calls s'.calls
execute_query-cancelled_example =
    execute_query-cancelled aborted_dependencies (λ w. refl) 1 balance_query
      (record { timeout_ms = some 500; signal = true; cache = some plan; retry = some twice }) start
      refl refl
