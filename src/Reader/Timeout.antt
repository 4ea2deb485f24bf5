-- ===== src/Reader/Timeout.antt =====
-- packages/reader/src/lib/control/default-read-timeout.ts.
use event_driven_platform.Prelude.{
  List, [], ◌∷◌, ◌++◌, Option, none, some, or_else, ◌≡◌, refl, ap, ◌∙◌,
}
use event_driven_platform.Effects.{Result, ok, err}
use event_driven_platform.Promises.{
  settle_all, first_settling, settle_all-first_settling, first_settling-append,
}

pub data ReadTimeoutResult (A : Type 0) : Type 0 where
  completed : A → ReadTimeoutResult A
  timed_out : ReadTimeoutResult A

-- what happens to a read with a timeout: the timer fires, or the work is done or has failed
pub data ReadTimeoutEvent (E A : Type 0) : Type 0 where
  timer_fired : ReadTimeoutEvent E A
  work_done : A → ReadTimeoutEvent E A
  work_failed : E → ReadTimeoutEvent E A

module _ {E A : Type 0} where
  unfoldable pub read_timeout_outcome :
      ReadTimeoutEvent E A → Option (Result E (ReadTimeoutResult A))
  read_timeout_outcome timer_fired = some (ok timed_out)
  read_timeout_outcome (work_done result) = some (ok (completed result))
  read_timeout_outcome (work_failed e) = some (err e)

  -- DefaultReadTimeout.execute: the promise after the events
  unfoldable pub execute_read_with_timeout :
      List (ReadTimeoutEvent E A) → Option (Result E (ReadTimeoutResult A))
  unfolding settle_all read_timeout_outcome
  execute_read_with_timeout events = settle_all read_timeout_outcome events none

  -- the outcome of a call with a timeout whose events before the timer are given
  abbrev pub first_read_outcome : List (ReadTimeoutEvent E A) → Result E (ReadTimeoutResult A)
  first_read_outcome [] = ok timed_out
  first_read_outcome (timer_fired ∷ rest) = ok timed_out
  first_read_outcome (work_done result ∷ rest) = ok (completed result)
  first_read_outcome (work_failed e ∷ rest) = err e

  first_read_outcome_lem :
      (before : List (ReadTimeoutEvent E A))
      → or_else (first_settling read_timeout_outcome before) (ok timed_out)
        ≡ first_read_outcome before
  unfolding read_timeout_outcome
  first_read_outcome_lem [] = refl
  first_read_outcome_lem (timer_fired ∷ rest) = refl
  first_read_outcome_lem (work_done result ∷ rest) = refl
  first_read_outcome_lem (work_failed e ∷ rest) = refl

  -- A read with a timeout is settled once its timer has fired, whatever happens later: with the result
  -- of the work if the work was done first, with its error if it failed first, and else as timed out.
  pub execute_read_with_timeout-settled :
      (before after : List (ReadTimeoutEvent E A))
      → execute_read_with_timeout (before ++ timer_fired ∷ after) ≡ some (first_read_outcome before)
  unfolding execute_read_with_timeout read_timeout_outcome
  execute_read_with_timeout-settled before after =
      settle_all-first_settling read_timeout_outcome (before ++ timer_fired ∷ after)
      ∙ first_settling-append read_timeout_outcome before after timer_fired (ok timed_out) refl
      ∙ ap some (first_read_outcome_lem before)
