-- ===== src/UseCaseExecutor/Script/Conformance.antt =====
-- Every run of the use case executor follows a script.
use event_driven_platform.Prelude.{true, false, Text, List, [], ◌∷◌, ◌≡◌, refl}
use event_driven_platform.Effects.{Result, ok, err}
use event_driven_platform.Effects.Hoare.{
  Post, Triple, Triple-pure, Triple-throw, Triple-bind, Triple-attempt, weaken,
}
use event_driven_platform.Execution.{Timestamp, ExecutionLease}
use event_driven_platform.UseCaseExecutor.{
  ClaimUseCaseExecutionResult, CompleteUseCaseExecutionResult, ReleaseUseCaseExecutionResult,
  UseCaseExecutorError, claim_in_progress, claim_conflict, transition_rejected,
}
use event_driven_platform.UseCaseExecutor.Executor.{
  UseCaseCall, claim_answered, use_case_answered, release_answered, complete_answered, UseCaseState,
  UseCaseExecutorDependencies, UseCaseExecutionRequest, UseCaseExecutorObservationContext,
  execution_completed, execution_started, execution_requested, claim_completed, claim_outcome,
  release_completed, completion_completed, completion_succeeded, observation_context,
  use_case_release_request, use_case_complete_request, use_case_claim_request, release_and_throw,
  accept_completion, complete_execution, run_claimed, execute_use_case,
}
use event_driven_platform.UseCaseExecutor.Script.{
  Script, claim_threw, replayed, busy, conflict, released, finished, effects,
}
use event_driven_platform.UseCaseExecutor.Script.Primitives.{
  Done, called-Triple, read_clock-Triple, report-Triple, report_since-Triple,
}

module _ {W A Input : Type 0} (d : UseCaseExecutorDependencies W A)
    (request : UseCaseExecutionRequest W Input A) (context : UseCaseExecutorObservationContext)
    (execution_id : Text) where
  abbrev Follows : Result UseCaseExecutorError A → UseCaseState W A → Type 0
  Follows r s =
      Script request.context.intent request.context.correlation_id execution_id d.lease_owner_id
        (effects s.calls) r

  -- a run that has made the calls of a script
  follow :
      (xs : List (UseCaseCall A)) (r : Result UseCaseExecutorError A)
      → Script request.context.intent request.context.correlation_id execution_id d.lease_owner_id
          xs r
      → (s : UseCaseState W A) → Done xs s
      → Follows r s
  follow xs r p s h = rw h p

  module _ (t : Timestamp) (lease : ExecutionLease) where
    abbrev granted : List (UseCaseCall A)
    granted =
        claim_answered (use_case_claim_request d request execution_id t)
          (ok (ClaimUseCaseExecutionResult.claimed lease))
        ∷ []

    release_and_throw-Triple :
        (u : Timestamp) (e : UseCaseExecutorError)
        → Triple
            (Done (use_case_answered (err e) ∷ granted))
            (release_and_throw d context execution_id lease u e)
            (λ a. Follows (ok a))
            (λ e. Follows (err e))
    unfolding release_and_throw
    release_and_throw-Triple u e =
        let xs : List (UseCaseCall A) = use_case_answered (err e) ∷ granted in
        Triple-bind (λ _. Done xs)
          (report_since-Triple d xs _ (execution_completed context false) u)
          (λ _.
            Triple-bind (λ _. Done xs) (read_clock-Triple d xs _)
              (λ v.
                Triple-bind
                  (λ _ s.
                    (r : Result UseCaseExecutorError ReleaseUseCaseExecutionResult) × Done
                      (release_answered (use_case_release_request execution_id lease v) r ∷ xs) s)
                  (Triple-attempt
                    (λ a. Done (
                      release_answered (use_case_release_request execution_id lease v) (ok a) ∷ xs))
                    (λ e. Done (
                      release_answered (use_case_release_request execution_id lease v) (err e)
                      ∷ xs))
                    (called-Triple xs (d.release (use_case_release_request execution_id lease v))
                      (release_answered (use_case_release_request execution_id lease v))
                      (λ r t. refl))
                    (λ a.
                      weaken
                        (report_since-Triple d
                          (release_answered (use_case_release_request execution_id lease v) (ok a)
                            ∷ xs)
                          (λ e s. Follows (err e) s) (release_completed context true) v)
                        (λ s p. p) (λ a' s p. (ok a, p)) (λ e s p. p))
                    (λ e'.
                      weaken
                        (report_since-Triple d
                          (release_answered (use_case_release_request execution_id lease v) (err e')
                            ∷ xs)
                          (λ e s. Follows (err e) s) (release_completed context false) v)
                        (λ s p. p) (λ a' s p. (err e', p)) (λ e s p. p)))
                  (λ _. Triple-throw e (λ s p.
                    follow
                      (release_answered (use_case_release_request execution_id lease v) p.0 ∷ xs)
                      (err e) (released t v lease e p.0) s p.1))))

    accept_completion-Triple :
        (v : Timestamp) (a : A) (c : CompleteUseCaseExecutionResult)
        → Triple
            (Done (
              complete_answered (use_case_complete_request execution_id lease a v) (ok c)
              ∷ use_case_answered (ok a)
              ∷ granted))
            (accept_completion d execution_id a c)
            (λ a. Follows (ok a))
            (λ e. Follows (err e))
    unfolding accept_completion
    accept_completion-Triple v a (CompleteUseCaseExecutionResult.completed w) =
        Triple-pure a
          (follow _ (ok a) (finished t v lease a (ok (CompleteUseCaseExecutionResult.completed w))))
    accept_completion-Triple v a (CompleteUseCaseExecutionResult.rejected r) =
        Triple-throw (transition_rejected execution_id r) (
          follow _ (err (transition_rejected execution_id r))
            (finished t v lease a (ok (CompleteUseCaseExecutionResult.rejected r))))

    complete_execution-Triple :
        (u : Timestamp) (a : A)
        → Triple
            (Done (use_case_answered (ok a) ∷ granted))
            (complete_execution d context execution_id lease u a)
            (λ a. Follows (ok a))
            (λ e. Follows (err e))
    unfolding complete_execution
    complete_execution-Triple u a =
        let xs : List (UseCaseCall A) = use_case_answered (ok a) ∷ granted in
        Triple-bind (λ _. Done xs) (report_since-Triple d xs _ (execution_completed context true) u)
          (λ _.
            Triple-bind (λ _. Done xs) (read_clock-Triple d xs _)
              (λ v.
                Triple-bind
                  (λ c. Done (
                    complete_answered (use_case_complete_request execution_id lease a v) (ok c)
                    ∷ xs))
                  (weaken
                    (called-Triple xs
                      (d.complete (use_case_complete_request execution_id lease a v))
                      (complete_answered (use_case_complete_request execution_id lease a v))
                      (λ r t. refl))
                    (λ s p. p) (λ c s p. p)
                    (λ e s p.
                      follow
                        (complete_answered (use_case_complete_request execution_id lease a v)
                            (err e)
                          ∷ xs)
                        (err e) (finished t v lease a (err e)) s p))
                  (λ c.
                    Triple-bind
                      (λ _. Done (
                        complete_answered (use_case_complete_request execution_id lease a v) (ok c)
                        ∷ xs))
                      (report_since-Triple d
                        (complete_answered (use_case_complete_request execution_id lease a v) (ok c)
                          ∷ xs)
                        _ (completion_completed context (completion_succeeded c)) v)
                      (λ _. accept_completion-Triple v a c))))

    run_granted-Triple :
        Triple
          (Done granted)
          (run_claimed d request context execution_id (ClaimUseCaseExecutionResult.claimed lease))
          (λ a. Follows (ok a))
          (λ e. Follows (err e))
    unfolding run_claimed
    run_granted-Triple =
        Triple-bind (λ _. Done granted) (read_clock-Triple d granted _)
          (λ u.
            Triple-bind (λ _. Done granted) (report-Triple d granted _ (execution_started context))
              (λ _.
                Triple-attempt (λ a. Done (use_case_answered (ok a) ∷ granted))
                  (λ e. Done (use_case_answered (err e) ∷ granted))
                  (called-Triple granted (request.use_case request.input request.context)
                    use_case_answered (λ r t. refl))
                  (complete_execution-Triple u) (release_and_throw-Triple u)))

  run_claimed-Triple :
      (t : Timestamp) (claim : ClaimUseCaseExecutionResult A)
      → Triple
          (Done (claim_answered (use_case_claim_request d request execution_id t) (ok claim) ∷ []))
          (run_claimed d request context execution_id claim)
          (λ a. Follows (ok a))
          (λ e. Follows (err e))
  unfolding run_claimed
  run_claimed-Triple t (ClaimUseCaseExecutionResult.claimed lease) = run_granted-Triple t lease
  run_claimed-Triple t (ClaimUseCaseExecutionResult.completed a u) =
      Triple-pure a (follow _ (ok a) (replayed t u a))
  run_claimed-Triple t (ClaimUseCaseExecutionResult.already_in_progress l) =
      Triple-throw (claim_in_progress execution_id)
        (follow _ (err (claim_in_progress execution_id)) (busy t l))
  run_claimed-Triple t (ClaimUseCaseExecutionResult.intent_conflict other) =
      Triple-throw (claim_conflict execution_id other)
        (follow _ (err (claim_conflict execution_id other)) (conflict t other))

  Post-Follows :
      (r : Result UseCaseExecutorError A) (s : UseCaseState W A)
      → Post {S = UseCaseState W A} (λ a. Follows (ok a)) (λ e. Follows (err e)) r s
      → Follows r s
  Post-Follows (ok a) s h = h
  Post-Follows (err e) s h = h

module _ {W A Input : Type 0} (d : UseCaseExecutorDependencies W A)
    (request : UseCaseExecutionRequest W Input A) (execution_id : Text) where
  execute_use_case-Triple :
      d.create_execution_id request.context.intent.id ≡ ok execution_id
      → Triple
          (Done [])
          (execute_use_case d request)
          (λ a. Follows d request (observation_context d request) execution_id (ok a))
          (λ e. Follows d request (observation_context d request) execution_id (err e))
  unfolding execute_use_case
  execute_use_case-Triple made =
      let context = observation_context d request in
      rw made (
        Triple-bind (λ _. Done []) (report-Triple d [] _ (execution_requested context))
          (λ _.
            Triple-bind (λ _. Done []) (read_clock-Triple d [] _)
              (λ t.
                let asked = use_case_claim_request d request execution_id t in
                Triple-bind (λ claim. Done (claim_answered asked (ok claim) ∷ []))
                  (weaken (called-Triple [] (d.claim asked) (claim_answered asked) (λ r t. refl))
                    (λ s p. p) (λ claim s p. p)
                    (λ e s p.
                      follow d request context execution_id (claim_answered asked (err e) ∷ [])
                        (err e) (claim_threw t e) s p))
                  (λ claim.
                    Triple-bind (λ _. Done (claim_answered asked (ok claim) ∷ []))
                      (report_since-Triple d (claim_answered asked (ok claim) ∷ []) _
                        (claim_completed context (claim_outcome claim)) t)
                      (λ _. run_claimed-Triple d request context execution_id t claim)))))

  -- Whatever the store, the use case and the observer answer or throw, and whatever times the clock
  -- gives, a run that starts with no call made and whose execution identifier can be made follows one
  -- of six scripts. It claims once, for its intent and owner, with a lease of 30 seconds. A claim that
  -- throws, a stored result, an execution in progress and a conflict end it at once, with the error or
  -- the result. A granted claim is followed by exactly one call of the use case; if that throws, by
  -- exactly one release by the owner and the version of the granted lease, whose answer changes
  -- nothing, and the use case's error; if it returns, by exactly one completion with its result by the
  -- owner and the version of the granted lease, and its result is returned only if the store accepts it.
  pub execute_use_case-Script :
      (s : UseCaseState W A)
      → s.calls ≡ []
      → d.create_execution_id request.context.intent.id ≡ ok execution_id
      → Script request.context.intent request.context.correlation_id execution_id d.lease_owner_id
          (effects (execute_use_case d request s).1.calls)
          (execute_use_case d request s).0
  execute_use_case-Script s none_yet made =
      let (r, s') = execute_use_case d request s in
      Post-Follows d request (observation_context d request) execution_id r s'
        ((execute_use_case-Triple made).at s (rw none_yet refl))
