-- ===== src/UseCaseExecutor/Script/Primitives.antt =====
-- What the primitive calls of the use case executor add to the calls that a run has made.
use event_driven_platform.Prelude.{ℕ, List, ◌∷◌, ◌≡◌, ap, ◌∙◌}
use event_driven_platform.Effects.{Result, ok, err}
use event_driven_platform.Effects.Hoare.{Post, Triple, Triple-bind}
use event_driven_platform.Execution.{Timestamp, duration}
use event_driven_platform.UseCaseExecutor.{UseCaseExecutorError}
use event_driven_platform.UseCaseExecutor.Executor.{
  UseCaseCall, UseCaseState, Answering, UseCaseExecutorDependencies, UseCaseExecutorObservation,
  called, read_clock, report, report_since,
}
use event_driven_platform.UseCaseExecutor.Script.{effects}

module _ {W A : Type 0} where
  -- the run has made just these calls
  abbrev pub Done : List (UseCaseCall A) → UseCaseState W A → Type 0
  Done xs s = effects s.calls ≡ xs

  called-Post :
      {B : Type 0} (xs : List (UseCaseCall A))
      (call : Result UseCaseExecutorError B → UseCaseCall A) (r : Result UseCaseExecutorError B)
      (s : UseCaseState W A)
      → Done (call r ∷ xs) s
      → Post (λ b. Done (call (ok b) ∷ xs)) (λ e. Done (call (err e) ∷ xs)) r s
  called-Post xs call (ok b) s h = h
  called-Post xs call (err e) s h = h

  pub called-Triple :
      {B : Type 0} (xs : List (UseCaseCall A)) (method : Answering W B)
      (call : Result UseCaseExecutorError B → UseCaseCall A)
      → ((r : Result UseCaseExecutorError B) (t : List (UseCaseCall A))
          → effects (call r ∷ t) ≡ call r ∷ effects t)
      → Triple
          (Done xs)
          (called method call)
          (λ b. Done (call (ok b) ∷ xs))
          (λ e. Done (call (err e) ∷ xs))
  unfolding called
  called-Triple xs method call kept = record {
    at = λ s h.
        let (r, w) = method s.world in
        called-Post xs call r (record s { world = w; calls = call r ∷ s.calls })
          (kept r s.calls ∙ ap (λ t. call r ∷ t) h);
  }

module _ {W A : Type 0} (d : UseCaseExecutorDependencies W A) (xs : List (UseCaseCall A))
    (R : UseCaseExecutorError → UseCaseState W A → Type 0) where
  pub read_clock-Triple : Triple (Done xs) (read_clock d) (λ _. Done xs) R
  unfolding read_clock
  read_clock-Triple = record { at = λ s h. h }

  pub report-Triple :
      (o : UseCaseExecutorObservation) → Triple (Done xs) (report d o) (λ _. Done xs) R
  unfolding report
  report-Triple o = record { at = λ s h. h }

  pub report_since-Triple :
      (o : ℕ → UseCaseExecutorObservation) (t : Timestamp)
      → Triple (Done xs) (report_since d o t) (λ _. Done xs) R
  unfolding report_since
  report_since-Triple o t =
      Triple-bind (λ _. Done xs) read_clock-Triple (λ u. report-Triple (o (duration t u)))
