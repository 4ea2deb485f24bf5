-- ===== src/Reader/Cancelled.antt =====
-- A query whose signal is aborted before it starts.
use event_driven_platform.Prelude.{ℕ, true, Option, some, List, ◌∷◌, ◌≡◌, refl, ap}
use event_driven_platform.Effects.{Result, ok, err}
use event_driven_platform.Effects.Hoare.{
  Post, Triple, Triple-bind, Triple-attempt, Triple-pure, Triple-throw, Triple-frame,
}
use event_driven_platform.Effects.Traced.{Traced}
use event_driven_platform.Reader.Errors.{ReaderError, read_cancelled}
use event_driven_platform.Reader.Environment.{
  Query, QueryOptions, ReaderObservation, ReaderOutcome, read_requested, read_started,
  read_completed, DefaultReaderDependencies, ReaderCall, observed, ReaderRun,
}
use event_driven_platform.Reader.Execute.{
  reader_context, reader_outcome, control, read_work, controlled_work, execute_query,
}
use event_driven_platform.Reader.Observations.{observe-Keeps, now-Keeps, observe_since-Keeps}

-- only observations have been made since `base`
pub data ObservedSince {A Number : Type 0} (base : List (ReaderCall A Number))
    : List (ReaderCall A Number) → Type 0 where
  nothing : ObservedSince base base
  more :
      {t : List (ReaderCall A Number)} (o : ReaderObservation Number)
      → ObservedSince base t
      → ObservedSince base (observed o ∷ t)

thrown :
    {W A Number : Type 0} (base : List (ReaderCall A Number)) (r : Result ReaderError A)
    (s : Traced W (ReaderCall A Number))
    → Post (λ _ _. ⊥) (λ e s. (e ≡ read_cancelled) × ObservedSince base s.calls) r s
    → (r ≡ err read_cancelled) × ObservedSince base s.calls
thrown base (ok a) s h = absurd h
thrown base (err e) s h = (ap err h.0, h.1)

module _ {W A Number : Type 0} (d : DefaultReaderDependencies W A Number)
    (aborted : (w : W) → (d.aborted w).0 ≡ true) where
  -- the work is not begun
  control-cancelled :
      (timeout_ms : Option ℕ) (work : ReaderRun W A Number A) (base : List (ReaderCall A Number))
      → Triple
          (λ s. ObservedSince base s.calls)
          (control d timeout_ms true work)
          (λ _ _. ⊥)
          (λ e s. (e ≡ read_cancelled) × ObservedSince base s.calls)
  unfolding control
  control-cancelled timeout_ms work base = record { at = λ s h. rw (aborted s.world) (refl, h) }

  controlled_work-cancelled :
      (rounds : ℕ) (query : Query W A Number) (o : QueryOptions W A Number)
      (base : List (ReaderCall A Number)) (options : Option (QueryOptions W A Number))
      → options ≡ some o
      → o.signal ≡ true
      → Triple
          (λ s. ObservedSince base s.calls)
          (controlled_work d rounds query options)
          (λ _ _. ⊥)
          (λ e s. (e ≡ read_cancelled) × ObservedSince base s.calls)
  unfolding controlled_work
  controlled_work-cancelled rounds query o base options e h =
      rw (e, h) (control-cancelled o.timeout_ms (read_work d rounds query o.cache) base)

  execute_query-Triple :
      (rounds : ℕ) (query : Query W A Number) (o : QueryOptions W A Number)
      (base : List (ReaderCall A Number))
      → query.options ≡ some o
      → o.signal ≡ true
      → Triple
          (λ s. ObservedSince base s.calls)
          (execute_query d rounds query)
          (λ _ _. ⊥)
          (λ e s. (e ≡ read_cancelled) × ObservedSince base s.calls)
  unfolding execute_query
  execute_query-Triple rounds query o base e h =
      let K : List (ReaderCall A Number) → Type 0 = ObservedSince base in
      let R : ReaderError → Traced W (ReaderCall A Number) → Type 0 =
        λ e s. (e ≡ read_cancelled) × K s.calls in
      let context = reader_context d query in
      Triple-bind (λ _ s. K s.calls) (now-Keeps d K R)
        (λ t.
          Triple-bind (λ _ s. K s.calls)
            (observe-Keeps d K R (λ u o. more o) (read_requested context))
            (λ _.
              Triple-bind (λ _ s. K s.calls)
                (observe-Keeps d K R (λ u o. more o) (read_started context))
                (λ _.
                  Triple-attempt (λ _ _. ⊥) R
                    (controlled_work-cancelled rounds query o base query.options e h)
                    (λ a.
                      Triple-bind (λ _ _. ⊥)
                        (observe_since-Keeps d (λ _. ⊥) R (λ u o f. f)
                          (read_completed context ReaderOutcome.success) t)
                        (λ _. Triple-pure a (λ s f. f)))
                    (λ x.
                      Triple-bind (λ _ s. (x ≡ read_cancelled) × K s.calls)
                        (Triple-frame (x ≡ read_cancelled) (
                          observe_since-Keeps d K R (λ u o. more o)
                            (read_completed context (reader_outcome x)) t))
                        (λ _. Triple-throw x (λ s k. k))))))

  -- A query whose signal is aborted before it starts is cancelled, whatever its other options are: the
  -- read throws ReadCancelledError and makes no call but its observations, neither of the cache
  -- nor of the coordinator nor of the source.
  pub execute_query-cancelled :
      (rounds : ℕ) (query : Query W A Number) (o : QueryOptions W A Number)
      (s : Traced W (ReaderCall A Number))
      → query.options ≡ some o
      → o.signal ≡ true
      → let (r, s') = execute_query d rounds query s in
        (r ≡ err read_cancelled) × ObservedSince s.calls s'.calls
  execute_query-cancelled rounds query o s e h =
      let (r, s') = execute_query d rounds query s in
      thrown s.calls r s' ((execute_query-Triple rounds query o s.calls e h).at s nothing)
