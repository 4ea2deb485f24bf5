-- ===== src/Reader/Lease/Steps.antt =====
-- The calls that every part of a read makes, under the lease protocol.
use event_driven_platform.Prelude.{ℕ, ◌≡◌, refl, List, ◌∷◌}
use event_driven_platform.Effects.{Result, ok, err}
use event_driven_platform.Effects.Hoare.{Triple, Triple-bind}
use event_driven_platform.Effects.Traced.{Traced, called, sensed, called-On, answered-On, sensed-On}
use event_driven_platform.Execution.{Timestamp, duration}
use event_driven_platform.Reader.Errors.{ReaderError}
use event_driven_platform.Reader.Environment.{
  ReaderObservation, ReaderCall, observed, DefaultReaderDependencies, ReaderMethod, reader_now,
  reader_observe, observe_since,
}
use event_driven_platform.Reader.Lease.{LeasePhase, lease_next, LeaseAllowed, AtLease}

module _ {A Number : Type 0} where
  pub AtLease-next :
      (p q : LeasePhase) (t : List (ReaderCall A Number)) (c : ReaderCall A Number)
      → AtLease p t
      → LeaseAllowed p c
      → lease_next p c ≡ q
      → AtLease q (c ∷ t)
  AtLease-next p q t c h a e = ((h.0, rw h.1 a), rw h.1 e)

module _ {W A Number : Type 0} where
  -- a condition on the log, on the state of a read
  abbrev pub OnLog : (List (ReaderCall A Number) → Type 0) → Traced W (ReaderCall A Number) → Type 0
  OnLog K s = K s.calls

  -- a call that is allowed at `p`
  pub called-AtLease :
      {B : Type 0} (p : LeasePhase) (method : ReaderMethod W B)
      (call : Result ReaderError B → ReaderCall A Number)
      → ((r : Result ReaderError B) → LeaseAllowed p (call r))
      → Triple {S = Traced W (ReaderCall A Number)}
          (OnLog (AtLease p))
          (called method call)
          (λ b. OnLog (AtLease (lease_next p (call (ok b)))))
          (λ e. OnLog (AtLease (lease_next p (call (err e)))))
  called-AtLease p method call allowed =
      called-On (AtLease p) (λ b. AtLease (lease_next p (call (ok b))))
        (λ e. AtLease (lease_next p (call (err e)))) method call
        (λ t b h. AtLease-next p _ t (call (ok b)) h (allowed (ok b)) refl)
        (λ t e h. AtLease-next p _ t (call (err e)) h (allowed (err e)) refl)

  pub sensed-AtLease :
      {B : Type 0} (p : LeasePhase) (R : ReaderError → Traced W (ReaderCall A Number) → Type 0)
      (method : W → B × W)
      → Triple {S = Traced W (ReaderCall A Number)} {E = ReaderError}
          (OnLog (AtLease p))
          (sensed method)
          (λ _. OnLog (AtLease p))
          R
  sensed-AtLease p R method = sensed-On (AtLease p) R method

module _ {W A Number : Type 0} (d : DefaultReaderDependencies W A Number) (p : LeasePhase)
    (R : ReaderError → Traced W (ReaderCall A Number) → Type 0) where
  pub reader_now-AtLease : Triple (OnLog (AtLease p)) (reader_now d) (λ _. OnLog (AtLease p)) R
  unfolding reader_now
  reader_now-AtLease = sensed-AtLease p R d.now

  pub reader_observe-AtLease :
      (o : ReaderObservation Number)
      → Triple (OnLog (AtLease p)) (reader_observe d o) (λ _. OnLog (AtLease p)) R
  unfolding reader_observe
  reader_observe-AtLease o =
      answered-On (AtLease p) (λ _. AtLease p) R _ (λ _. observed o)
        (λ t a h. AtLease-next p p t (observed o) h tt refl)

  pub observe_since-AtLease :
      (o : ℕ → ReaderObservation Number) (t : Timestamp)
      → Triple (OnLog (AtLease p)) (observe_since d o t) (λ _. OnLog (AtLease p)) R
  unfolding observe_since
  observe_since-AtLease o t =
      Triple-bind (λ _. OnLog (AtLease p)) reader_now-AtLease
        (λ u. reader_observe-AtLease (o (duration t u)))
