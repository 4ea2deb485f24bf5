-- ===== src/Lib.antt =====
-- Verification library of the event-driven platform: the write pipeline of packages/runner over
-- the transaction packages, with the packages whose values it passes around, the use case
-- executor, and the read pipeline of packages/reader with the in-memory read cache.
--
-- How the program works. A Runner takes a command (an operation with its policies and retry
-- options). It asks the execution log store for a claim on the operation's intent. A stored
-- result is replayed; a refused claim is an error; a granted claim carries a lease with a
-- version. Under the lease it evaluates the guards and the rate limit, resolves the handler, and
-- runs handler attempts in a loop. Each attempt is one transaction: the handler runs (with a
-- timeout, if one is set), its events become envelopes and outbox records, the execution log
-- entry is completed, and the records are appended. A rolled back rejection rolls the transaction
-- back and is stored in a second one. A failure is recorded in a transaction of its own, and may
-- be retried after a delay under a new claim. The use case executor is a smaller sibling: it
-- claims, runs the use case, and completes or releases the claim; it opens no transaction and
-- does not retry. A Reader takes a query. It looks the read up in the levels of a cache, joins a
-- flight for the same key in the same process, or leads one: it asks a coordinator for a lease,
-- reads the source (with retries) while a timer renews the lease, begins to write the result to
-- the levels only if it owns the lease, and releases it; without the lease it waits and looks
-- again. The in-memory read cache keeps the results of reads by tenant and key.
--
-- Files, and the code that each one models:
--   Prelude        shared names, texts (lists of characters), tests on numbers, lists
--   Effects        Exec: state passing with thrown errors, `try` as attempt; Effects/Hoare its rules
--   Domain         packages/actor, intent, operation, event, operation-result, tenant-reference,
--                  aggregate-reference, subject
--   Execution      packages/execution: leases, failures, normalizeExecutionFailure
--   ExecutionLog   packages/execution-log and packages/execution-log-store
--   Command        packages/command, guard, rate-limit and retry: the options of a command
--   Observability  packages/observability: observers and SafeObserver
--   Outbox         packages/operation-event-envelope-factory and packages/outbox
--   Identifiers    the keys of event and attempt identifiers (packages/event, packages/execution)
--   Retry          packages/runner/src/lib/retry/calculate-retry-delay.ts (packages/reader has the
--                  same file) and the strategy factories of packages/retry
--   Transaction    packages/execution-transaction, transaction-adapter, transaction-scope-node and
--                  scoped-execution-transaction
--   UseCaseExecutor  packages/use-case-executor, use-case and use-case-execution-store: Executor (the
--                  run), Script (what a run calls, and in which order)
--   JavaScript     what the packages use of Map (Maps: its laws) and JSON.stringify (Quoting); Numbers
--                  has NaN and Infinity, to try the definitions on that take numbers as a parameter
--   ReadCacheInMemory  packages/read-cache-in-memory, with the keys of packages/query; Laws, Validity,
--                  Keys and Isolation hold the proofs
--   Promises       promises that the first event settles
--   Coordinator    packages/read-execution-coordinator: requests and answers
--   ReadCacheRedis  packages/read-cache-redis: Keys and Isolation (the names of keys), Durations,
--                  RoundTrips
--   Reader         packages/reader: Errors, Environment (packages/query, read, read-handler-resolver,
--                  the dependencies, the log of calls), Source (the source and its retries), Traversal
--                  (the cache levels), Flight (the coordinated flight), Cached, Execute;
--                  InFlight (the flights of a process), Timeout (the default timeout); Attempts and
--                  Budget (the retries end), Lease (the automaton of the lease, and the proofs that
--                  every read obeys it)
--   RedisCoordinator  packages/read-execution-coordinator-redis: the scripts and operations, Wait (the
--                  promise of a wait), Laws (what is relied on of Redis), Fencing (histories of steps),
--                  Grants, Steps, Outcomes, Answers and Leases (the proofs), Histories and Holder
--   Runner         packages/runner: Errors, Environment (dependencies, the trace of calls), Policies
--                  (claim, guards, rate limit), Timeout (the default timeout), Attempt (one handler attempt), Execute (the retry
--                  loop), Detailed (executeDetailed and execute), Protocol (the automaton of the calls
--                  that a run may make, and the proofs that every run obeys it)
--
-- State. A run works on `State`: the world of the dependencies (any type), the slot of the
-- AsyncLocalStorage that holds the active transaction, and the trace of the calls made, newest
-- first. The store, the outbox, the guards, the limiter, the resolver, the handlers, the timeout,
-- the clock, `Math.random`, `encodeURIComponent` and the persistence library's transaction are
-- not code of the repository or are supplied by its users: they are fields of `Dependencies`, any
-- functions on the world. They may answer or throw anything, except that the clock,
-- `Math.random`, `encodeURIComponent` and the roll back of a transaction do not throw. A handler
-- invocation is a call of the handler or, for a command with a timeout, of the execution timeout
-- with it. What runs on in the background after a timeout is part of the timeout function; the
-- default timeouts are modelled by the events that settle their promise. TransactionAdapter is an
-- interface; it is modelled as its documentation says, committing when the callback resolves,
-- rolling back and rethrowing when it throws.
--
-- Values. Names, identifiers, payloads and stored data are texts. Timestamps are the numbers that
-- Date.parse gives for them, all valid. JavaScript's numbers in the delays are a parameter
-- `Numbers` of operations on any type; counts (attempt numbers, limits, versions) are natural
-- numbers. A thrown value that is none of the Runner's own errors is `foreign`, with what
-- normalizeExecutionFailure sees of it.
--
-- Fuel. The loop `while (true)` of executeHandlerAttempts runs on fuel: maxAttempts + 2 rounds,
-- or 2 without retry options. A round that finds no fuel records `ran_out_of_fuel`, a call that
-- the automaton of Runner/Protocol never allows.
--
-- The in-memory read cache evicts in a loop on fuel, the number of its entries, which is enough
-- since each round deletes one; its times are whole milliseconds, and its Map is the list of the
-- entries in insertion order.
--
-- A read works on the log of its calls, newest first, beside the world (Effects/Traced). Its
-- handlers, cache levels, coordinator, clock, observer, delay and signal are fields of
-- DefaultReaderDependencies or of the query, any functions on the world that may answer or throw
-- anything, except that `renew` answers by a status, and that the clock and Math.random do not
-- throw. What runs beside a read is made one sequence: the rounds of the renewal timer that fall
-- into a wait are performed when the wait is over, and a round in flight is awaited. The waits of
-- the owner of a flight are these: for the shared levels as a whole, for the source with its
-- retries, and, in the publication, for the write of each level; so a renewal may fail between
-- two levels, and the further levels are written, as in the code, before the ownership is looked
-- at again. In the same way work that a timeout or an abort has left behind goes on, so its calls
-- stand in the log before the end of the read. A flight of another caller is seen from the caller
-- that joins it. The `for (;;)` of executeReadWithRetry has maxAttempts + 1 rounds, or one
-- without retry options; the `while (true)` of DistributedReadFlight.run has any number `rounds`,
-- since a coordinator may refuse for ever.
--
-- The Redis coordinator works on a world that holds Redis. Its Lua scripts are methods over the
-- commands of Redis; the commands, the client's eval (whose reply may be lost), the subscription
-- and cjson are fields of RedisClient, and RedisLaws states their documented effect on the
-- strings and counters of a world. A history is a sequence of claims, renewals and releases of
-- any callers, with keys that expire in between; a script is atomic, so each is a step. A wait is
-- the list of the events that happen before its timer fires.
--
-- The Redis cache works on any world of the client; its durations are numbers of any type with
-- the operations of DurationNumbers.
--
-- Not modelled: the JSON codec of the Redis cache, the schema renderers, the descriptor schemas
-- (zod) and the UUIDs hashed from keys, intent keys, the timers of the default retry delays, and
-- the packaging tools. A handler that throws a RollbackExecutionTransactionSignal of its own is
-- not modelled either: the class is not exported to handlers.
pub mod Prelude
pub mod Effects
pub mod Domain
pub mod Execution
pub mod ExecutionLog
pub mod Command
pub mod Observability
pub mod Outbox
pub mod Retry
pub mod Transaction
pub mod Runner
pub mod Coordinator
pub mod Identifiers
pub mod JavaScript
pub mod Promises
pub mod ReadCacheInMemory
pub mod ReadCacheRedis
pub mod Reader
pub mod RedisCoordinator
pub mod UseCaseExecutor
