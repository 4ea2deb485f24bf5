-- ===== src/Runner/Policies.antt =====
-- DefaultRunner: guards, the rate limit and its bucket key, and the claim.
use event_driven_platform.Prelude.{
  ℕ, Text, text, decimal, concat, Bool, Option, none, some, List, [], ◌∷◌, ◌++◌, or_else,
  if◌then◌else◌,
}
use event_driven_platform.Effects.{pure, throw, ◌>>=◌}
use event_driven_platform.Domain.{Operation, actor_type_text}
use event_driven_platform.Execution.{Timestamp}
use event_driven_platform.ExecutionLog.{ClaimExecutionRequest, ClaimExecutionResult}
use event_driven_platform.Command.{
  Command, CommandOptions, GuardOptions, RateLimitOptions, actor, tenant, subject, operation,
  global,
}
use event_driven_platform.Runner.Errors.{
  guard, rate_limit, guard_rejected, rate_limit_rejected, policy_unavailable,
}
use event_driven_platform.Runner.Environment.{
  Dependencies, Run, Method, RateLimitConsumeRequest, RateLimitDecision, allowed, rejected,
  guard_evaluated, rate_limit_consumed, claim_answered, logged, now,
}

-- `command.options?.guards` and so on
abbrev pub option :
    {Number A : Type 0}
    → (CommandOptions Number → Option A)
    → Option (CommandOptions Number)
    → Option A
option field none = none
option field (some o) = field o

-- buildRateLimitBucketKey
unfoldable pub build_rate_limit_bucket_key :
    (encode : Text → Text) → RateLimitOptions → Operation → Text
unfolding actor_type_text
build_rate_limit_bucket_key encode limit op =
    let prefix = encode limit.key in
    elim limit.scope [
      | global ↦ prefix ++ text "|global"
      | actor ↦ concat (
          prefix
          ∷ text "|actor|"
          ∷ encode (actor_type_text op.actor.type)
          ∷ text "|"
          ∷ encode op.actor.id
          ∷ [])
      | tenant ↦
          concat
            (prefix ∷ text "|tenant|" ∷ encode op.tenant.type ∷ text "|" ∷ encode op.tenant.id ∷ [])
      | subject ↦ concat (
          prefix ∷ text "|subject|" ∷ encode op.subject.type ∷ text "|" ∷ encode op.subject.id ∷ [])
      | operation ↦ concat (
          prefix
          ∷ text "|operation|"
          ∷ encode op.name
          ∷ text "|"
          ∷ encode (decimal op.schema_version)
          ∷ [])
    ]

-- DefaultRunner with its dependencies, runtime and options
pub record Runner (W Number : Type 0) : Type 0 where
  pub dependencies : Dependencies W Number
  pub lease_owner_id : Text
  pub lease_duration_ms : ℕ

module _ {W Number : Type 0} (r : Runner W Number) where
  abbrev pub claim_request : Command Number → Text → Timestamp → ClaimExecutionRequest
  claim_request command execution_id requested_at = record {
    execution_id = execution_id;
    operation = command.operation;
    correlation_id = command.correlation_id;
    lease_owner_id = r.lease_owner_id;
    lease_duration_ms = r.lease_duration_ms;
    requested_at = requested_at;
  }

  unfoldable pub claim_execution : Command Number → Text → Run W Number ClaimExecutionResult
  unfolding now logged
  claim_execution command execution_id = do
    requested_at ← now r.dependencies
    let request = claim_request command execution_id requested_at
    logged (r.dependencies.claim request) (claim_answered request)

  -- the loop over the guards, in their order; the first one that does not accept ends it
  unfoldable pub evaluate_each :
      (GuardOptions → Operation → Method W Bool)
      → Operation
      → List GuardOptions
      → Run W Number (Unit {0})
  unfolding logged
  evaluate_each evaluator op [] = pure tt
  evaluate_each evaluator op (g ∷ rest) = do
    accepted ← logged (evaluator g op) (λ _. guard_evaluated g)
    if accepted then evaluate_each evaluator op rest else throw (guard_rejected g)

  unfoldable pub evaluate_guard_list :
      Operation
      → Option (GuardOptions → Operation → Method W Bool)
      → Option (List GuardOptions)
      → Run W Number (Unit {0})
  unfolding evaluate_each
  evaluate_guard_list op evaluator none = pure tt
  evaluate_guard_list op evaluator (some []) = pure tt
  evaluate_guard_list op none (some (g ∷ rest)) = throw (policy_unavailable guard)
  evaluate_guard_list op (some evaluator) (some (g ∷ rest)) = evaluate_each evaluator op (g ∷ rest)

  unfoldable pub evaluate_guards : Command Number → Run W Number (Unit {0})
  unfolding evaluate_guard_list
  evaluate_guards command =
      evaluate_guard_list command.operation r.dependencies.guard_evaluator
        (option (λ o. o.guards) command.options)

  unfoldable pub check_decision : RateLimitOptions → RateLimitDecision → Run W Number (Unit {0})
  check_decision limit allowed = pure tt
  check_decision limit rejected = throw (rate_limit_rejected limit)

  abbrev pub consume_request : RateLimitOptions → Operation → RateLimitConsumeRequest
  consume_request limit op = record {
    bucket_key = build_rate_limit_bucket_key r.dependencies.encode_uri_component limit op;
    limit = limit.limit;
    window_ms = limit.window_ms;
    cost = or_else limit.cost 1;
  }

  unfoldable pub consume_rate_limit :
      Operation
      → Option (RateLimitConsumeRequest → Method W RateLimitDecision)
      → Option RateLimitOptions
      → Run W Number (Unit {0})
  unfolding logged build_rate_limit_bucket_key check_decision
  consume_rate_limit op limiter none = pure tt
  consume_rate_limit op none (some limit) = throw (policy_unavailable rate_limit)
  consume_rate_limit op (some consume) (some limit) = do
    let request = consume_request limit op
    decision ← logged (consume request) (λ _. rate_limit_consumed request)
    check_decision limit decision

  unfoldable pub enforce_rate_limit : Command Number → Run W Number (Unit {0})
  unfolding consume_rate_limit
  enforce_rate_limit command =
      consume_rate_limit command.operation r.dependencies.rate_limiter
        (option (λ o. o.rate_limit) command.options)
