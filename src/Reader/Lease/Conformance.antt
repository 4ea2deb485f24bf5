-- ===== src/Reader/Lease/Conformance.antt =====
-- Every read keeps the lease protocol.
use event_driven_platform.Prelude.{
  ℕ, Bool, true, false, if◌then◌else◌, Option, none, some, ◌≡◌, refl, List, [],
}
use event_driven_platform.Effects.{Result, ok, err, pure, throw}
use event_driven_platform.Effects.Hoare.{
  Post, Triple, Triple-bind, Triple-attempt, Triple-pure, Triple-throw,
}
use event_driven_platform.Effects.Traced.{Traced}
use event_driven_platform.Reader.Errors.{ReaderError, read_cancelled, read_timed_out}
use event_driven_platform.Reader.Environment.{
  Query, QueryOptions, QueryCachePlan, ReaderCall, ReaderOutcome, read_requested, read_started,
  read_completed, DefaultReaderDependencies, ReaderRun,
}
use event_driven_platform.Reader.Cached.{query_retry}
use event_driven_platform.Reader.Execute.{
  reader_outcome, race, with_timeout, control, reader_context, read_work, controlled_work,
  execute_query,
}
use event_driven_platform.Reader.Lease.{free, AtLease}
use event_driven_platform.Reader.Lease.Steps.{
  OnLog, sensed-AtLease, reader_now-AtLease, reader_observe-AtLease, observe_since-AtLease,
}
use event_driven_platform.Reader.Lease.Reads.{execute_read_with_retry-Sources}
use event_driven_platform.Reader.Lease.Caches.{execute_cached-Free}

module _ {W A Number : Type 0} (d : DefaultReaderDependencies W A Number) where
  abbrev KeepsFree : ReaderRun W A Number A → Type 0
  KeepsFree work =
      Triple (OnLog (AtLease free)) work (λ _. OnLog (AtLease free)) (λ _. OnLog (AtLease free))

  lost_or_returned :
      (lost : Bool) (e : ReaderError) (m : ReaderRun W A Number A)
      → KeepsFree m
      → KeepsFree (if lost then throw e else m)
  lost_or_returned true e m h = Triple-throw e (λ s q. q)
  lost_or_returned false e m h = h

  race-Free :
      (first : W → Bool × W) (e : ReaderError) (work : ReaderRun W A Number A)
      → KeepsFree work
      → KeepsFree (race d first e work)
  unfolding race
  race-Free first e work h =
      let here : Traced W (ReaderCall A Number) → Type 0 = OnLog (AtLease free) in
      Triple-attempt (λ _. here) (λ _. here) h
        (λ a.
          Triple-bind (λ _. here) (sensed-AtLease free (λ _. here) first)
            (λ lost. lost_or_returned lost e (pure a) (Triple-pure a (λ s q. q))))
        (λ error.
          Triple-bind (λ _. here) (sensed-AtLease free (λ _. here) first)
            (λ lost. lost_or_returned lost e (throw error) (Triple-throw error (λ s q. q))))

  with_timeout-Free :
      (timeout_ms : Option ℕ) (work : ReaderRun W A Number A)
      → KeepsFree work
      → KeepsFree (with_timeout d timeout_ms work)
  unfolding with_timeout
  with_timeout-Free none work h = h
  with_timeout-Free (some ms) work h = race-Free (d.timer_first ms) (read_timed_out ms) work h

  control-Free :
      (timeout_ms : Option ℕ) (signal : Bool) (work : ReaderRun W A Number A)
      → KeepsFree work
      → KeepsFree (control d timeout_ms signal work)
  unfolding control
  control-Free timeout_ms false work h = with_timeout-Free timeout_ms work h
  control-Free timeout_ms true work h =
      let here : Traced W (ReaderCall A Number) → Type 0 = OnLog (AtLease free) in
      Triple-bind (λ _. here) (sensed-AtLease free (λ _. here) d.aborted)
        (λ aborted.
          lost_or_returned aborted read_cancelled
            (race d d.aborted_first read_cancelled (with_timeout d timeout_ms work))
            (race-Free d.aborted_first read_cancelled (with_timeout d timeout_ms work)
              (with_timeout-Free timeout_ms work h)))

  read_work-Free :
      (rounds : ℕ) (query : Query W A Number) (plan : Option (QueryCachePlan W A Number))
      → KeepsFree (read_work d rounds query plan)
  unfolding read_work
  read_work-Free rounds query none =
      let context = reader_context d query in
      execute_read_with_retry-Sources d free context (query_retry query) query.read
  read_work-Free rounds query (some plan) =
      execute_cached-Free d query plan (reader_context d query) rounds

  controlled_work-Free :
      (rounds : ℕ) (query : Query W A Number) (options : Option (QueryOptions W A Number))
      → KeepsFree (controlled_work d rounds query options)
  unfolding controlled_work
  controlled_work-Free rounds query none =
      control-Free none false (read_work d rounds query none) (read_work-Free rounds query none)
  controlled_work-Free rounds query (some o) =
      control-Free o.timeout_ms o.signal (read_work d rounds query o.cache)
        (read_work-Free rounds query o.cache)

  execute_query-Triple :
      (rounds : ℕ) (query : Query W A Number) → KeepsFree (execute_query d rounds query)
  unfolding execute_query
  execute_query-Triple rounds query =
      let here : Traced W (ReaderCall A Number) → Type 0 = OnLog (AtLease free) in
      let context = reader_context d query in
      Triple-bind (λ _. here) (reader_now-AtLease d free (λ _. here))
        (λ t.
          Triple-bind (λ _. here)
            (reader_observe-AtLease d free (λ _. here) (read_requested context))
            (λ _.
              Triple-bind (λ _. here)
                (reader_observe-AtLease d free (λ _. here) (read_started context))
                (λ _.
                  Triple-attempt (λ _. here) (λ _. here)
                    (controlled_work-Free rounds query query.options)
                    (λ a.
                      Triple-bind (λ _. here)
                        (observe_since-AtLease d free (λ _. here)
                          (read_completed context ReaderOutcome.success) t)
                        (λ _. Triple-pure a (λ s h. h)))
                    (λ e.
                      Triple-bind (λ _. here)
                        (observe_since-AtLease d free (λ _. here)
                          (read_completed context (reader_outcome e)) t)
                        (λ _. Triple-throw e (λ s h. h))))))

  Post-log :
      (K : List (ReaderCall A Number) → Type 0) (r : Result ReaderError A)
      (s : Traced W (ReaderCall A Number))
      → Post (λ _. OnLog K) (λ _. OnLog K) r s
      → K s.calls
  Post-log K (ok a) s h = h
  Post-log K (err e) s h = h

  -- Whatever the handlers, the cache levels, the coordinator (whose renewals answer by a status),
  -- the timers and the signal do, if only the clock does not throw, a read that starts with no
  -- call made keeps the lease protocol: a lease is claimed only while none is held; renewals name
  -- the lease that is held and end with the first that fails; a result of the source is not begun
  -- to be written to the cache levels once a renewal has failed (renewals may fail while a level
  -- is written, and the further levels are written all the same); and each lease that is acquired
  -- is released, once and by its own reference, before the read's work ends, whether the read
  -- returns or throws.
  pub execute_query-AtLease :
      (rounds : ℕ) (query : Query W A Number) (s : Traced W (ReaderCall A Number))
      → s.calls ≡ []
      → AtLease free (execute_query d rounds query s).1.calls
  execute_query-AtLease rounds query s none_yet =
      let (r, s') = execute_query d rounds query s in
      Post-log (AtLease free) r s'
        ((execute_query-Triple rounds query).at s (rw none_yet (tt, refl)))
