-- ===== src/Runner/Errors.antt =====
-- The errors of the Runner, and the ExecutionFailure that each carries: packages/runner/src/lib,
-- guard, policy, rate-limit, timeout and transition.
use event_driven_platform.Prelude.{
  ℕ, Text, text, decimal, concat, Bool, true, false, Option, none, some, [], ◌∷◌, ◌++◌, or_else,
}
use event_driven_platform.Execution.{ExecutionFailure, Thrown, execution_failure}
use event_driven_platform.ExecutionLog.{
  ExecutionTransitionRejected, not_found, not_in_progress, lease_conflict, FailedAttemptStatus,
}
use event_driven_platform.Command.{GuardOptions, GuardRejection, RateLimitOptions}

pub data ExecutionPolicy : Type 0 where
  guard rate_limit : ExecutionPolicy

pub data ClaimRejectionReason : Type 0 where
  already_in_progress intent_conflict : ClaimRejectionReason

pub data Transition : Type 0 where
  complete fail : Transition

-- `foreign`: whatever a dependency throws
pub data Error : Type 0 where
  guard_rejected : GuardOptions → Error
  rate_limit_rejected : RateLimitOptions → Error
  policy_unavailable : ExecutionPolicy → Error
  execution_timed_out : (timeout_ms : ℕ) → Error
  claim_rejected : (execution_id : Text) → ClaimRejectionReason → Error
  transition_rejected : (execution_id : Text) → Transition → ExecutionTransitionRejected → Error
  foreign : Thrown → Error

guard_code : Option GuardRejection → Text
guard_code none = text "guard-rejected"
guard_code (some r) = or_else r.code (text "guard-rejected")

guard_message : Text → Option GuardRejection → Text
guard_message name none = concat (text "Guard \"" ∷ name ∷ text "\" rejected execution." ∷ [])
guard_message name (some r) = r.reason

unfoldable pub guard_rejected_failure : GuardOptions → ExecutionFailure
unfolding guard_code guard_message
guard_rejected_failure g = record {
  code = guard_code g.reject_with;
  message = guard_message g.name g.reject_with;
  retryable = false;
}

unfoldable pub rate_limit_rejected_failure : RateLimitOptions → ExecutionFailure
rate_limit_rejected_failure r = record {
  code = text "rate-limit-rejected";
  message =
      or_else r.reject_with
        (concat (text "Rate limit \"" ∷ r.key ∷ text "\" rejected execution." ∷ []));
  retryable = false;
}

unfoldable pub policy_unavailable_failure : ExecutionPolicy → ExecutionFailure
policy_unavailable_failure guard = record {
  code = text "guard-evaluator-unavailable";
  message = text "Guard evaluation is configured but no GuardEvaluator is available.";
  retryable = false;
}
policy_unavailable_failure rate_limit = record {
  code = text "rate-limiter-unavailable";
  message = text "Rate limiting is configured but no RateLimiter is available.";
  retryable = false;
}

unfoldable pub execution_timed_out_failure : ℕ → ExecutionFailure
execution_timed_out_failure timeout_ms = record {
  code = text "execution-timed-out";
  message =
      concat (text "Execution attempt timed out after " ∷ decimal timeout_ms ∷ text " ms." ∷ []);
  retryable = true;
}

unfoldable pub claim_rejected_failure : Text → ClaimRejectionReason → ExecutionFailure
claim_rejected_failure execution_id already_in_progress = record {
  code = text "already-in-progress";
  message = concat (text "Execution \"" ∷ execution_id ∷ text "\" is already in progress." ∷ []);
  retryable = true;
}
claim_rejected_failure execution_id intent_conflict = record {
  code = text "intent-conflict";
  message =
      concat (
        text "Execution \""
        ∷ execution_id
        ∷ text "\" conflicts with the persisted Operation."
        ∷ []);
  retryable = false;
}

rejection_type : ExecutionTransitionRejected → Text
rejection_type not_found = text "not-found"
rejection_type (not_in_progress e) = text "not-in-progress"
rejection_type (lease_conflict e) = text "lease-conflict"

transition_text : Transition → Text
transition_text complete = text "complete"
transition_text fail = text "fail"

unfoldable pub transition_rejected_failure :
    Text → Transition → ExecutionTransitionRejected → ExecutionFailure
unfolding rejection_type transition_text
transition_rejected_failure execution_id transition rejection = record {
  code = text "execution-" ++ rejection_type rejection;
  message = concat (
      text "Execution \""
      ∷ execution_id
      ∷ text "\" "
      ∷ transition_text transition
      ∷ text " transition was rejected with \""
      ∷ rejection_type rejection
      ∷ text "\"."
      ∷ []);
  retryable = false;
}

-- the ExecutionFailureError that each class of error is
unfoldable pub thrown : Error → Thrown
thrown (guard_rejected g) = execution_failure (guard_rejected_failure g)
thrown (rate_limit_rejected r) = execution_failure (rate_limit_rejected_failure r)
thrown (policy_unavailable p) = execution_failure (policy_unavailable_failure p)
thrown (execution_timed_out ms) = execution_failure (execution_timed_out_failure ms)
thrown (claim_rejected id reason) = execution_failure (claim_rejected_failure id reason)
thrown (transition_rejected id t r) = execution_failure (transition_rejected_failure id t r)
thrown (foreign t) = t

-- `error instanceof ExecutionTimedOutError`
unfoldable pub is_timed_out : Error → Bool
is_timed_out (execution_timed_out ms) = true
is_timed_out _ = false

-- `error instanceof ExecutionTimedOutError ? 'timed-out' : 'failed'`
unfoldable pub failure_status : Error → FailedAttemptStatus
failure_status (execution_timed_out ms) = FailedAttemptStatus.timed_out
failure_status _ = FailedAttemptStatus.failed
