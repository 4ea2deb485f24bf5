-- ===== src/Runner/Protocol/Claims.antt =====
-- Claiming, and waiting before a retry, keep the protocol.
use event_driven_platform.Prelude.{
  ◌≡◌, refl, false, ◌⊎◌, inl, inr, List, ℕ, Bool-cases, if◌then◌else◌, Text,
}
use event_driven_platform.Effects.{ok, pure}
use event_driven_platform.Effects.Hoare.{Triple, Triple-pure, Triple-throw, Triple-bind, weaken}
use event_driven_platform.ExecutionLog.{
  InProgressExecutionLogEntry, ClaimExecutionResult, claimed, completed, already_in_progress,
  intent_conflict,
}
use event_driven_platform.Command.{Command, RetryOptions}
use event_driven_platform.Runner.Errors
use event_driven_platform.Runner.Errors.{Error, ClaimRejectionReason, thrown}
use event_driven_platform.Runner.Environment.{
  State, Run, Call, ObservationContext, idempotency_hit, claim_rejected, retry_scheduled,
  claim_answered, waited, logged,
}
use event_driven_platform.Runner.Policies.{Runner, claim_request, claim_execution}
use event_driven_platform.Runner.Attempt.{executed, stored, RunnerExecution}
use event_driven_platform.Runner.Execute.{
  replay, refuse, entry_execution_id, dispatch_claim, delay_for, wait_before_retry,
}
use event_driven_platform.Runner.Protocol.{
  held_of, Phase, idle, refused, failed, found, leased, done, after_claim, MayClaim, phase,
  Conforms, At, On,
}
use event_driven_platform.Runner.Protocol.Primitives.{logged-At, now-On, observe-At}

-- outside any transaction, and with no result committed by this run
abbrev pub IsClosed : Phase → Type 0
IsClosed idle = Unit
IsClosed refused = Unit
IsClosed failed = Unit
IsClosed (leased h b) = Unit
IsClosed _ = ⊥

module _ {Number : Type 0} where
  -- A returned result is the one that this run committed, or the one that the store had.
  abbrev pub ReturnPost : RunnerExecution → List (Call Number) → Type 0
  ReturnPost x t =
      ((x.result_source ≡ executed) × At (done x.result) t)
      ⊎ ((x.result_source ≡ stored) × At (found x.result) t)

  -- A run that throws has committed no result and left no transaction open.
  abbrev pub ThrowPost : List (Call Number) → Type 0
  ThrowPost t = Conforms t × IsClosed (phase t)

module _ {W Number : Type 0} (r : Runner W Number) where
  pub closed : (p : Phase) (t : List (Call Number)) → IsClosed p → At p t → ThrowPost t
  closed p t c h = (h.0, rw h.1 c)

  pub dispatch_claim-Triple :
      (context : ObservationContext)
      (granted : InProgressExecutionLogEntry → Run W Number RunnerExecution)
      → ((entry : InProgressExecutionLogEntry)
          → Triple
              (On (At (leased (held_of entry) false)))
              (granted entry)
              (λ x. On (ReturnPost x))
              (λ _. On ThrowPost))
      → (claim : ClaimExecutionResult)
      → Triple
          (On (At (after_claim (ok claim))))
          (dispatch_claim r context granted claim)
          (λ x. On (ReturnPost x))
          (λ _. On ThrowPost)
  unfolding dispatch_claim replay refuse
  dispatch_claim-Triple context granted g (claimed entry) = g entry
  dispatch_claim-Triple context granted g (completed entry) =
      Triple-bind (λ _. On (At (found entry.result)))
        (observe-At r.dependencies (found entry.result) (idempotency_hit context) _)
        (λ _.
          Triple-pure
            (record {
              execution_id = entry.base.execution_id;
              result_source = stored;
              result = entry.result;
            })
            (λ s p. inr (refl, p)))
  dispatch_claim-Triple context granted g (already_in_progress entry) =
      Triple-bind (λ _. On (At refused))
        (observe-At r.dependencies refused (claim_rejected context _) _)
        (λ _.
          Triple-throw
            (Errors.claim_rejected entry.base.execution_id ClaimRejectionReason.already_in_progress)
            (λ s p. closed refused s.trace tt p))
  dispatch_claim-Triple context granted g (intent_conflict entry) =
      Triple-bind (λ _. On (At refused))
        (observe-At r.dependencies refused (claim_rejected context _) _)
        (λ _.
          Triple-throw
            (Errors.claim_rejected (entry_execution_id entry) ClaimRejectionReason.intent_conflict)
            (λ s p. closed refused s.trace tt p))

  -- a claim by a run that has not claimed yet, or whose failure is committed
  pub claim_execution-Triple :
      (p : Phase) (command : Command Number) (execution_id : Text)
      → MayClaim p
      → Triple
          (On (At p))
          (claim_execution r command execution_id)
          (λ claim. On (At (after_claim (ok claim))))
          (λ _. On ThrowPost)
  unfolding claim_execution
  claim_execution-Triple p command execution_id may =
      Triple-bind (λ _. On (At p)) (now-On r.dependencies (At p) _)
        (λ t.
          let q = claim_request r command execution_id t in
          weaken (logged-At p (r.dependencies.claim q) (claim_answered q) (λ _. may)) (λ s h. h)
            (λ a s h. h) (λ e s h. closed refused s.trace tt h))

  delay_for-Triple :
      (K : List (Call Number) → Type 0) (retry : RetryOptions Number) (n : ℕ)
      (R : Error → State W Number → Type 0)
      → Triple (On K) (delay_for r retry n) (λ _. On K) R
  unfolding delay_for
  delay_for-Triple K retry n R = record { at = λ s h. h }

  wait_if_positive-Triple :
      (delay_ms : Number)
      → Triple {S = State W Number}
          (On (At failed))
          (if r.dependencies.numbers.is_positive delay_ms
            then logged (r.dependencies.wait delay_ms) (λ _. waited delay_ms)
            else pure tt)
          (λ _. On (At failed))
          (λ _. On ThrowPost)
  wait_if_positive-Triple delay_ms =
      elim (Bool-cases (r.dependencies.numbers.is_positive delay_ms)) [
        | inl e ↦ rw e (
            weaken
              (logged-At failed (r.dependencies.wait delay_ms) (λ _. waited delay_ms) (λ _. tt))
              (λ s p. p) (λ a s p. p) (λ x s p. closed failed s.trace tt p))
        | inr e ↦ rw e (Triple-pure tt (λ s p. p))
      ]

  pub wait_before_retry-Triple :
      (context : ObservationContext) (retry : RetryOptions Number) (n : ℕ)
      → Triple
          (On (At failed))
          (wait_before_retry r context retry n)
          (λ _. On (At failed))
          (λ _. On ThrowPost)
  unfolding wait_before_retry
  wait_before_retry-Triple context retry n =
      Triple-bind (λ _. On (At failed)) (delay_for-Triple (At failed) retry n _)
        (λ delay_ms.
          Triple-bind (λ _. On (At failed))
            (observe-At r.dependencies failed (retry_scheduled context n delay_ms) _)
            (λ _. wait_if_positive-Triple delay_ms))
