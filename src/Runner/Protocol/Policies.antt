-- ===== src/Runner/Protocol/Policies.antt =====
-- Guards and the rate limit are applied under a fresh lease, and leave it as it was.
use event_driven_platform.Prelude.{
  Bool, true, false, List, [], ◌∷◌, Option, none, some, if◌then◌else◌,
}
use event_driven_platform.Effects.{throw}
use event_driven_platform.Effects.Hoare.{Triple, Triple-pure, Triple-throw, Triple-bind}
use event_driven_platform.Domain.{Operation}
use event_driven_platform.Command.{Command, GuardOptions, RateLimitOptions}
use event_driven_platform.Runner.Errors
use event_driven_platform.Runner.Errors.{Error, guard_rejected}
use event_driven_platform.Runner.Environment.{
  State, Method, ObservationContext, RateLimitConsumeRequest, RateLimitDecision, allowed, rejected,
  guard_evaluated, rate_limit_consumed, Call,
}
use event_driven_platform.Runner.Policies.{
  Runner, option, evaluate_each, evaluate_guard_list, evaluate_guards, check_decision,
  consume_rate_limit, consume_request, enforce_rate_limit,
}
use event_driven_platform.Runner.Detailed.{observe_rejection, apply_policies}
use event_driven_platform.Runner.Protocol.{Held, leased, At, On}
use event_driven_platform.Runner.Protocol.Primitives.{logged-At, observe-At}

module _ {W Number : Type 0} (r : Runner W Number) (h : Held) where
  abbrev pub Fresh : List (Call Number) → Type 0
  Fresh = At (leased h false)

  accept-Triple :
      (evaluator : GuardOptions → Operation → Method W Bool) (op : Operation) (g : GuardOptions)
      (rest : List GuardOptions) (accepted : Bool)
      → Triple (On Fresh) (evaluate_each r evaluator op rest) (λ _. On Fresh) (λ _. On Fresh)
      → Triple
          (On Fresh)
          (if accepted then evaluate_each r evaluator op rest else throw (guard_rejected g))
          (λ _. On Fresh)
          (λ _. On Fresh)
  accept-Triple evaluator op g rest true t = t
  accept-Triple evaluator op g rest false t = Triple-throw (guard_rejected g) (λ s p. p)

  evaluate_each-Triple :
      (evaluator : GuardOptions → Operation → Method W Bool) (op : Operation)
      (gs : List GuardOptions)
      → Triple (On Fresh) (evaluate_each r evaluator op gs) (λ _. On Fresh) (λ _. On Fresh)
  unfolding evaluate_each
  evaluate_each-Triple evaluator op [] = Triple-pure tt (λ s p. p)
  evaluate_each-Triple evaluator op (g ∷ rest) =
      Triple-bind (λ _. On Fresh)
        (logged-At (leased h false) (evaluator g op) (λ _. guard_evaluated g) (λ _. tt))
        (λ accepted.
          accept-Triple evaluator op g rest accepted (evaluate_each-Triple evaluator op rest))

  guards-Triple :
      (op : Operation) (evaluator : Option (GuardOptions → Operation → Method W Bool))
      (gs : Option (List GuardOptions))
      → Triple (On Fresh) (evaluate_guard_list r op evaluator gs) (λ _. On Fresh) (λ _. On Fresh)
  unfolding evaluate_guard_list
  guards-Triple op evaluator none = Triple-pure tt (λ s p. p)
  guards-Triple op evaluator (some []) = Triple-pure tt (λ s p. p)
  guards-Triple op none (some (g ∷ rest)) =
      Triple-throw (Errors.policy_unavailable Errors.guard) (λ s p. p)
  guards-Triple op (some evaluator) (some (g ∷ rest)) = evaluate_each-Triple evaluator op (g ∷ rest)

  decision-Triple :
      (limit : RateLimitOptions) (x : RateLimitDecision)
      → Triple (On Fresh) (check_decision r limit x) (λ _. On Fresh) (λ _. On Fresh)
  unfolding check_decision
  decision-Triple limit allowed = Triple-pure tt (λ s p. p)
  decision-Triple limit rejected = Triple-throw (Errors.rate_limit_rejected limit) (λ s p. p)

  rate_limit-Triple :
      (op : Operation) (limiter : Option (RateLimitConsumeRequest → Method W RateLimitDecision))
      (o : Option RateLimitOptions)
      → Triple (On Fresh) (consume_rate_limit r op limiter o) (λ _. On Fresh) (λ _. On Fresh)
  unfolding consume_rate_limit
  rate_limit-Triple op limiter none = Triple-pure tt (λ s p. p)
  rate_limit-Triple op none (some limit) =
      Triple-throw (Errors.policy_unavailable Errors.rate_limit) (λ s p. p)
  rate_limit-Triple op (some consume) (some limit) =
      let q = consume_request r limit op in
      Triple-bind (λ _. On Fresh)
        (logged-At (leased h false) (consume q) (λ _. rate_limit_consumed q) (λ _. tt))
        (decision-Triple limit)

  pub apply_policies-Triple :
      (command : Command Number)
      → Triple (On Fresh) (apply_policies r command) (λ _. On Fresh) (λ _. On Fresh)
  unfolding apply_policies evaluate_guards enforce_rate_limit
  apply_policies-Triple command =
      Triple-bind (λ _. On Fresh)
        (guards-Triple command.operation r.dependencies.guard_evaluator
          (option (λ o. o.guards) command.options))
        (λ _.
          rate_limit-Triple command.operation r.dependencies.rate_limiter
            (option (λ o. o.rate_limit) command.options))

  pub observe_rejection-Triple :
      (context : ObservationContext) (e : Error) (R : Error → State W Number → Type 0)
      → Triple (On Fresh) (observe_rejection r context e) (λ _. On Fresh) R
  unfolding observe_rejection
  observe_rejection-Triple context (Errors.guard_rejected g) R =
      observe-At r.dependencies (leased h false) _ R
  observe_rejection-Triple context (Errors.rate_limit_rejected l) R =
      observe-At r.dependencies (leased h false) _ R
  observe_rejection-Triple context _ R = Triple-pure tt (λ s p. p)
