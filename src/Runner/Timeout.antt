-- ===== src/Runner/Timeout.antt =====
-- packages/runner/src/lib/timeout/default-execution-timeout.ts.
use event_driven_platform.Prelude.{
  List, [], ◌∷◌, ◌++◌, Option, none, some, or_else, ◌≡◌, refl, ap, ◌∙◌,
}
use event_driven_platform.Effects.{Result, ok, err}
use event_driven_platform.Promises.{
  settle_all, first_settling, settle_all-first_settling, first_settling-append,
}
use event_driven_platform.Runner.Environment.{TimeoutResult, completed, timed_out}

-- what happens to a promise with a timeout: the timer fires, or the work is done or has failed
pub data TimeoutEvent (E A : Type 0) : Type 0 where
  timer_fired : TimeoutEvent E A
  work_done : A → TimeoutEvent E A
  work_failed : E → TimeoutEvent E A

module _ {E A : Type 0} where
  -- what each event resolves or rejects the promise with
  unfoldable pub timeout_outcome : TimeoutEvent E A → Option (Result E (TimeoutResult A))
  timeout_outcome timer_fired = some (ok timed_out)
  timeout_outcome (work_done result) = some (ok (completed result))
  timeout_outcome (work_failed e) = some (err e)

  -- DefaultExecutionTimeout.execute: the promise after the events
  unfoldable pub execute_with_timeout :
      List (TimeoutEvent E A) → Option (Result E (TimeoutResult A))
  unfolding settle_all timeout_outcome
  execute_with_timeout events = settle_all timeout_outcome events none

  -- the outcome of a call with a timeout whose events before the timer are given
  abbrev pub first_outcome : List (TimeoutEvent E A) → Result E (TimeoutResult A)
  first_outcome [] = ok timed_out
  first_outcome (timer_fired ∷ rest) = ok timed_out
  first_outcome (work_done result ∷ rest) = ok (completed result)
  first_outcome (work_failed e ∷ rest) = err e

  first_outcome_lem :
      (before : List (TimeoutEvent E A))
      → or_else (first_settling timeout_outcome before) (ok timed_out) ≡ first_outcome before
  unfolding timeout_outcome
  first_outcome_lem [] = refl
  first_outcome_lem (timer_fired ∷ rest) = refl
  first_outcome_lem (work_done result ∷ rest) = refl
  first_outcome_lem (work_failed e ∷ rest) = refl

  -- Once the timer has fired the promise is settled, whatever happens later: with the result of the
  -- work if the work was done first, with its error if it failed first, and else with the answer that
  -- it has timed out.
  pub execute_with_timeout-settled :
      (before after : List (TimeoutEvent E A))
      → execute_with_timeout (before ++ timer_fired ∷ after) ≡ some (first_outcome before)
  unfolding execute_with_timeout timeout_outcome
  execute_with_timeout-settled before after =
      settle_all-first_settling timeout_outcome (before ++ timer_fired ∷ after)
      ∙ first_settling-append timeout_outcome before after timer_fired (ok timed_out) refl
      ∙ ap some (first_outcome_lem before)
