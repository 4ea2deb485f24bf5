-- ===== src/Reader/Errors.antt =====
-- packages/reader/src/lib/errors: the errors that a read may end with.
use event_driven_platform.Prelude.{ℕ, Text, text, decimal, concat, [], ◌∷◌, ◌++◌, true, false}
use event_driven_platform.Execution.{ExecutionFailure, Thrown, execution_failure}

-- the Reader's own errors, and what its dependencies and handlers throw
pub data ReaderError : Type 0 where
  read_cancelled : ReaderError
  read_timed_out : (timeout_ms : ℕ) → ReaderError
  coordination_not_configured : (reason : Text) → ReaderError
  coordinator_unavailable : (reason : Text) → ReaderError
  ownership_lost : ReaderError
  handler_not_found : ReaderError
  handler_ambiguous : (detail : Text) → ReaderError
  foreign : Thrown → ReaderError

unfoldable pub read_cancelled_failure : ExecutionFailure
read_cancelled_failure = record {
  code = text "read-cancelled";
  message = text "Read execution was cancelled.";
  retryable = false;
}

unfoldable pub read_timed_out_failure : ℕ → ExecutionFailure
read_timed_out_failure timeout_ms = record {
  code = text "read-timed-out";
  message = concat (text "Read execution timed out after " ∷ decimal timeout_ms ∷ text "ms." ∷ []);
  retryable = true;
}

unfoldable pub coordination_not_configured_failure : Text → ExecutionFailure
coordination_not_configured_failure reason = record {
  code = text "read-execution-coordination-not-configured";
  message = text "Distributed read coordination is not configured: " ++ reason;
  retryable = false;
}

-- ReadExecutionCoordinatorFailedError, by its outcome
unfoldable pub coordinator_unavailable_failure : Text → ExecutionFailure
coordinator_unavailable_failure reason = record {
  code = text "read-execution-coordinator-unavailable";
  message = text "Read execution coordinator is unavailable: " ++ reason;
  retryable = true;
}

unfoldable pub ownership_lost_failure : ExecutionFailure
ownership_lost_failure = record {
  code = text "read-execution-coordinator-ownership-lost";
  message =
      text "Distributed read execution ownership was lost before the result could be published.";
  retryable = true;
}

-- ReadHandlerResolutionFailedError, by its status
unfoldable pub handler_not_found_failure : ExecutionFailure
handler_not_found_failure = record {
  code = text "read-handler-not-found";
  message = text "No ReadHandler is available for the requested Read.";
  retryable = false;
}

unfoldable pub handler_ambiguous_failure : Text → ExecutionFailure
handler_ambiguous_failure detail = record {
  code = text "read-handler-ambiguous";
  message = text "ReadHandler resolution is ambiguous: " ++ detail;
  retryable = false;
}

-- the ExecutionFailureError that each class of error is
unfoldable pub reader_thrown : ReaderError → Thrown
unfolding read_cancelled_failure read_timed_out_failure coordination_not_configured_failure
    coordinator_unavailable_failure ownership_lost_failure handler_not_found_failure
    handler_ambiguous_failure
reader_thrown read_cancelled = execution_failure read_cancelled_failure
reader_thrown (read_timed_out ms) = execution_failure (read_timed_out_failure ms)
reader_thrown (coordination_not_configured r) =
    execution_failure (coordination_not_configured_failure r)
reader_thrown (coordinator_unavailable r) = execution_failure (coordinator_unavailable_failure r)
reader_thrown ownership_lost = execution_failure ownership_lost_failure
reader_thrown handler_not_found = execution_failure handler_not_found_failure
reader_thrown (handler_ambiguous d) = execution_failure (handler_ambiguous_failure d)
reader_thrown (foreign t) = t
