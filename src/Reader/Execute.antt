-- ===== src/Reader/Execute.antt =====
-- packages/reader/src/lib/reader/default-reader.ts and control/read-execution-control.ts. A timeout or
-- an abort settles the read before its work; the work goes on, and its calls stand in the log before
-- the end of the read.
use event_driven_platform.Prelude.{ℕ, Bool, true, false, if◌then◌else◌, Option, none, some}
use event_driven_platform.Effects.{pure, throw, ◌>>=◌, ◌>>◌, attempt}
use event_driven_platform.Effects.Traced.{sensed}
use event_driven_platform.Reader.Errors.{ReaderError, read_cancelled, read_timed_out}
use event_driven_platform.Reader.Environment.{
  Query, QueryOptions, QueryCachePlan, ReaderObservationContext, ReaderOutcome, read_requested,
  read_started, read_completed, DefaultReaderDependencies, ReaderRun, reader_now, reader_observe,
  observe_since,
}
use event_driven_platform.Reader.Cached.{execute_cached, query_retry}
use event_driven_platform.Reader.Source.{execute_source, execute_read_with_retry}

-- `error instanceof ReadTimedOutError ? 'timed-out' : …`
abbrev pub reader_outcome : ReaderError → ReaderOutcome
reader_outcome (read_timed_out ms) = ReaderOutcome.timed_out
reader_outcome read_cancelled = ReaderOutcome.cancelled
reader_outcome _ = ReaderOutcome.error

module _ {W A Number : Type 0} (d : DefaultReaderDependencies W A Number) where
  -- work that something else may settle first, with an error
  unfoldable pub race :
      (W → Bool × W) → ReaderError → ReaderRun W A Number A → ReaderRun W A Number A
  unfolding sensed
  race first e work =
      attempt work (λ result. do lost ← sensed first; if lost then throw e else pure result)
        (λ error. do lost ← sensed first; if lost then throw e else throw error)

  -- ReadTimeout.execute, and the error of a read that has timed out
  unfoldable pub with_timeout : Option ℕ → ReaderRun W A Number A → ReaderRun W A Number A
  unfolding race
  with_timeout none work = work
  with_timeout (some timeout_ms) work =
      race (d.timer_first timeout_ms) (read_timed_out timeout_ms) work

  -- ReadExecutionControl.execute, with awaitWithCancellation
  unfoldable pub control :
      Option ℕ → (signal : Bool) → ReaderRun W A Number A → ReaderRun W A Number A
  unfolding with_timeout race sensed
  control timeout_ms false work = with_timeout timeout_ms work
  control timeout_ms true work = do
    aborted ← sensed d.aborted
    if aborted
        then throw read_cancelled
        else race d.aborted_first read_cancelled (with_timeout timeout_ms work)

  abbrev pub reader_context : Query W A Number → ReaderObservationContext
  reader_context query = record {
    read = query.read.name;
    tenant = query.read.tenant;
    correlation_id = query.correlation_id;
  }

  unfoldable pub read_work :
      (rounds : ℕ) → Query W A Number → Option (QueryCachePlan W A Number) → ReaderRun W A Number A
  unfolding execute_read_with_retry execute_source execute_cached
  read_work rounds query none =
      execute_read_with_retry d (reader_context query) (query_retry query)
        (execute_source d query.read (reader_context query))
  read_work rounds query (some plan) = execute_cached d query plan (reader_context query) rounds

  -- the work under the controls of the query's options
  unfoldable pub controlled_work :
      (rounds : ℕ) → Query W A Number → Option (QueryOptions W A Number) → ReaderRun W A Number A
  unfolding read_work control
  controlled_work rounds query none = control none false (read_work rounds query none)
  controlled_work rounds query (some o) =
      control o.timeout_ms o.signal (read_work rounds query o.cache)

  -- DefaultReader.execute; `rounds` bounds the loop of a coordinated flight
  unfoldable pub execute_query : (rounds : ℕ) → Query W A Number → ReaderRun W A Number A
  unfolding reader_now reader_observe controlled_work observe_since
  execute_query rounds query = do
    let context = reader_context query
    started_at ← reader_now d
    reader_observe d (read_requested context)
    reader_observe d (read_started context)
    attempt (controlled_work rounds query query.options)
        (λ result. do
          observe_since d (read_completed context ReaderOutcome.success) started_at
          pure result)
        (λ e. do observe_since d (read_completed context (reader_outcome e)) started_at; throw e)
