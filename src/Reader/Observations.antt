-- ===== src/Reader/Observations.antt =====
-- What the observations and the clock keep of the log of a read.
use event_driven_platform.Prelude.{ℕ, List, ◌∷◌}
use event_driven_platform.Effects.Hoare.{Triple, Triple-bind}
use event_driven_platform.Effects.Traced.{Traced, answered-On, sensed-On}
use event_driven_platform.Execution.{Timestamp, duration}
use event_driven_platform.Reader.Errors.{ReaderError}
use event_driven_platform.Reader.Environment.{
  ReaderObservation, DefaultReaderDependencies, ReaderCall, observed, reader_now, reader_observe,
  observe_since,
}

module _ {W A Number : Type 0} (d : DefaultReaderDependencies W A Number) where
  abbrev Log : Type 0
  Log = Traced W (ReaderCall A Number)

  pub observe-Keeps :
      (K : List (ReaderCall A Number) → Type 0) (R : ReaderError → Log → Type 0)
      → ((t : List (ReaderCall A Number)) (o : ReaderObservation Number) → K t → K (observed o ∷ t))
      → (o : ReaderObservation Number)
      → Triple {S = Log} (λ s. K s.calls) (reader_observe d o) (λ _ s. K s.calls) R
  unfolding reader_observe
  observe-Keeps K R keep o = answered-On K (λ _. K) R _ (λ _. observed o) (λ t a h. keep t o h)

  pub now-Keeps :
      (K : List (ReaderCall A Number) → Type 0) (R : ReaderError → Log → Type 0)
      → Triple {S = Log} (λ s. K s.calls) (reader_now d) (λ _ s. K s.calls) R
  unfolding reader_now
  now-Keeps K R = sensed-On K R d.now

  -- an observation with a duration keeps what every observation keeps
  pub observe_since-Keeps :
      (K : List (ReaderCall A Number) → Type 0) (R : ReaderError → Log → Type 0)
      → ((t : List (ReaderCall A Number)) (o : ReaderObservation Number) → K t → K (observed o ∷ t))
      → (o : ℕ → ReaderObservation Number) (t : Timestamp)
      → Triple {S = Log} (λ s. K s.calls) (observe_since d o t) (λ _ s. K s.calls) R
  unfolding observe_since
  observe_since-Keeps K R keep o t =
      Triple-bind (λ _ s. K s.calls) (now-Keeps K R)
        (λ u. observe-Keeps K R keep (o (duration t u)))
