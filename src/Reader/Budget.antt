-- ===== src/Reader/Budget.antt =====
-- How often a read calls its source.
use event_driven_platform.Prelude.{ℕ, suc, ◌+◌, ◌≤◌, ◌<◌, Option, ◌≡◌, refl, List, [], ◌∷◌, arith}
use event_driven_platform.Effects.{Result, ok, err}
use event_driven_platform.Effects.Hoare.{Post}
use event_driven_platform.Effects.Traced.{Traced}
use event_driven_platform.Command.{RetryOptions}
use event_driven_platform.Reader.Attempts.{attempt_limit, AttemptLaws, source_with_retry-Keeps}
use event_driven_platform.Reader.Environment.{
  Read, ReaderObservationContext, ReaderCall, source_answered, ran_out_of_fuel,
  DefaultReaderDependencies,
}
use event_driven_platform.Reader.Errors.{ReaderError}
use event_driven_platform.Reader.Source.{execute_source, execute_read_with_retry}

module _ {A Number : Type 0} where
  abbrev pub source_calls : List (ReaderCall A Number) → ℕ
  source_calls [] = 0
  source_calls (source_answered r ∷ t) = suc (source_calls t)
  source_calls (_ ∷ t) = source_calls t

  -- a loop of the read has run out of fuel
  abbrev pub fuel_misses : List (ReaderCall A Number) → ℕ
  fuel_misses [] = 0
  fuel_misses (ran_out_of_fuel ∷ t) = suc (fuel_misses t)
  fuel_misses (_ ∷ t) = fuel_misses t

  -- fewer than `n` calls of the source since `base`, and no round without fuel
  abbrev Below : (base misses n : ℕ) → List (ReaderCall A Number) → Type 0
  Below base misses n t = (source_calls t < base + n) × (fuel_misses t ≡ misses)

  Below-AttemptLaws :
      (base misses limit : ℕ)
      → AttemptLaws {A = A} {Number = Number} limit
          (Below base misses)
          (Below base misses (suc limit))
          (Below base misses (suc limit))
  Below-AttemptLaws base misses limit = record {
    observed_before = λ n t o h. h;
    observed_after = λ t o h. h;
    waited = λ n t delay_ms h. h;
    returned = λ n t a l h. (omega (arith, h.0), h.1);
    threw = λ n t e l h. (omega (arith, h.0), h.1);
    gave_up = λ n t l h. (omega (arith, h.0), h.1);
  }

module _ {W A Number : Type 0} (d : DefaultReaderDependencies W A Number)
    (context : ReaderObservationContext) where
  Post-Below :
      (base misses n : ℕ) (r : Result ReaderError A) (s : Traced W (ReaderCall A Number))
      → Post (λ _ s. Below base misses n s.calls) (λ _ s. Below base misses n s.calls) r s
      → Below base misses n s.calls
  Post-Below base misses n (ok a) s h = h
  Post-Below base misses n (err e) s h = h

  -- The retries of a read end: whatever the handlers, the clock and the delays do, the source is
  -- called at most as often as the options allow attempts (once without retry options, or with a
  -- maximum of none), and the loop does not run out of fuel.
  pub execute_read_with_retry-source_calls :
      (retry : Option (RetryOptions Number)) (read : Read) (s : Traced W (ReaderCall A Number))
      → let s' = (execute_read_with_retry d context retry (execute_source d read context) s).1 in
        (source_calls s'.calls ≤ source_calls s.calls + attempt_limit retry)
        × (fuel_misses s'.calls ≡ fuel_misses s.calls)
  execute_read_with_retry-source_calls retry read s =
      let base = source_calls s.calls in
      let misses = fuel_misses s.calls in
      let limit = attempt_limit retry in
      let (r, s') = execute_read_with_retry d context retry (execute_source d read context) s in
      let kept =
        (source_with_retry-Keeps d context retry (Below base misses) (Below base misses (suc limit))
            (Below base misses (suc limit)) (Below-AttemptLaws base misses limit) read).at
          s (omega arith, refl) in
      let ended = Post-Below base misses (suc limit) r s' kept in (omega (arith, ended.0), ended.1)
