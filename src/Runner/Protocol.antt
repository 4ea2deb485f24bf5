-- ===== src/Runner/Protocol.antt =====
-- The protocol of the Runner, as an automaton over the calls of a run: where a run stands after its
-- calls, and which call may come next. It is independent of the code of the Runner.
pub mod Primitives
pub mod Transact
pub mod Completion
pub mod Failure
pub mod Attempts
pub mod Claims
pub mod Loop
pub mod Policies
pub mod Conformance
use event_driven_platform.Prelude.{Text, Bool, true, false, ◌≡◌, List, [], ◌∷◌}
use event_driven_platform.Effects.{Result, ok, err}
use event_driven_platform.Domain.{OperationResult, is_rolled_back_operation_rejection}
use event_driven_platform.Execution.{ExecutionLeaseReference}
use event_driven_platform.ExecutionLog.{
  InProgressExecutionLogEntry, ClaimExecutionResult, claimed, CompleteExecutionRequest,
  CompleteExecutionResult, FailExecutionRequest, FailExecutionResult,
}
use event_driven_platform.Runner.Errors.{Error}
use event_driven_platform.Runner.Environment.{
  State, Call, observed, claim_answered, guard_evaluated, rate_limit_consumed, handler_invoked,
  complete_answered, fail_answered, append_answered, begin_answered, commit_answered, rolled_back,
  waited, ran_out_of_fuel,
}

-- the attempt that a granted claim created, and the lease that fences it
pub record Held : Type 0 where
  pub execution_id : Text
  pub attempt_id : Text
  pub lease : ExecutionLeaseReference

abbrev pub held_of : InProgressExecutionLogEntry → Held
held_of e = record {
  execution_id = e.base.execution_id;
  attempt_id = e.latest_attempt.attempt_id;
  lease = record { owner_id = e.lease.owner_id; version = e.lease.version };
}

pub data Phase : Type 0 where
  idle refused failed : Phase
  -- the store had a result
  found : OperationResult → Phase
  -- a granted claim, outside a transaction; whether the handler has been invoked under it
  leased : Held → (invoked : Bool) → Phase
  -- the same, inside a transaction
  working : Held → (invoked : Bool) → Phase
  -- inside a transaction: the completion was accepted; the outbox took the records; the failure was
  -- accepted
  stored published : Held → OperationResult → Phase
  marking : Held → Phase
  -- the result is committed
  done : OperationResult → Phase

abbrev pub after_claim : Result Error ClaimExecutionResult → Phase
after_claim (ok (claimed e)) = leased (held_of e) false
after_claim (ok (ClaimExecutionResult.completed e)) = found e.result
after_claim _ = refused

abbrev after_handler : Phase → Phase
after_handler (working h b) = working h true
after_handler p = p

abbrev after_complete : CompleteExecutionRequest → Phase → Phase
after_complete q (working h b) = stored h q.result
after_complete q p = p

abbrev after_fail : Phase → Phase
after_fail (working h b) = marking h
after_fail p = p

abbrev after_append : Phase → Phase
after_append (stored h r) = published h r
after_append p = p

abbrev after_begin : Phase → Phase
after_begin (leased h b) = working h b
after_begin p = p

abbrev pub after_commit : Phase → Phase
after_commit (stored h r) = done r
after_commit (published h r) = done r
after_commit (marking h) = failed
after_commit p = p

-- the transaction is undone; the lease is still held
abbrev pub after_rollback : Phase → Phase
after_rollback (working h b) = leased h b
after_rollback (stored h r) = leased h true
after_rollback (published h r) = leased h true
after_rollback (marking h) = leased h true
after_rollback p = p

module _ {Number : Type 0} where
  abbrev pub next : Phase → Call Number → Phase
  next p (observed o) = p
  next p (claim_answered q r) = after_claim r
  next p (guard_evaluated g) = p
  next p (rate_limit_consumed q) = p
  next p (handler_invoked o) = after_handler p
  next p (complete_answered q (ok (CompleteExecutionResult.completed e))) = after_complete q p
  next p (complete_answered q (ok (CompleteExecutionResult.rejected x))) = p
  next p (complete_answered q (err e)) = p
  next p (fail_answered q (ok (FailExecutionResult.failed e))) = after_fail p
  next p (fail_answered q (ok (FailExecutionResult.rejected x))) = p
  next p (fail_answered q (err e)) = p
  next p (append_answered rs (ok u)) = after_append p
  next p (append_answered rs (err e)) = p
  next p (begin_answered (ok t)) = after_begin p
  next p (begin_answered (err e)) = p
  next p (commit_answered (ok u)) = after_commit p
  next p (commit_answered (err e)) = after_rollback p
  next p rolled_back = after_rollback p
  next p (waited n) = p
  next p ran_out_of_fuel = p

-- a claim opens a run, or follows a committed failure
abbrev pub MayClaim : Phase → Type 0
MayClaim idle = Unit
MayClaim failed = Unit
MayClaim _ = ⊥

-- policies are applied under a lease, before the handler
abbrev MayApplyPolicy : Phase → Type 0
MayApplyPolicy (leased h false) = Unit
MayApplyPolicy _ = ⊥

-- the handler is invoked inside a transaction, once under each lease
abbrev MayInvoke : Phase → Type 0
MayInvoke (working h false) = Unit
MayInvoke _ = ⊥

-- a completion follows the handler, in a transaction, and names the attempt and lease that are held
abbrev MayComplete : CompleteExecutionRequest → Phase → Type 0
MayComplete q (working h true) =
    (q.execution_id ≡ h.execution_id) × (q.attempt_id ≡ h.attempt_id) × (q.lease ≡ h.lease)
MayComplete q _ = ⊥

-- a failure is recorded in a transaction, for the attempt and lease that are held
abbrev MayFail : FailExecutionRequest → Phase → Type 0
MayFail q (working h b) =
    (q.execution_id ≡ h.execution_id) × (q.attempt_id ≡ h.attempt_id) × (q.lease ≡ h.lease)
MayFail q _ = ⊥

-- the outbox takes records after the completion, and never for a rolled back rejection
abbrev MayAppend : Phase → Type 0
MayAppend (stored h r) = is_rolled_back_operation_rejection r ≡ false
MayAppend _ = ⊥

abbrev MayBegin : Phase → Type 0
MayBegin (leased h b) = Unit
MayBegin _ = ⊥

-- a completion is committed with its records, or alone for a rolled back rejection
abbrev pub MayCommit : Phase → Type 0
MayCommit (stored h r) = is_rolled_back_operation_rejection r ≡ true
MayCommit (published h r) = Unit
MayCommit (marking h) = Unit
MayCommit _ = ⊥

abbrev pub MayRollBack : Phase → Type 0
MayRollBack (working h b) = Unit
MayRollBack (stored h r) = Unit
MayRollBack (published h r) = Unit
MayRollBack (marking h) = Unit
MayRollBack _ = ⊥

-- a run waits only between a committed failure and the next claim
abbrev MayWait : Phase → Type 0
MayWait failed = Unit
MayWait _ = ⊥

module _ {Number : Type 0} where
  abbrev pub Allowed : Phase → Call Number → Type 0
  Allowed p (observed o) = Unit
  Allowed p (claim_answered q r) = MayClaim p
  Allowed p (guard_evaluated g) = MayApplyPolicy p
  Allowed p (rate_limit_consumed q) = MayApplyPolicy p
  Allowed p (handler_invoked o) = MayInvoke p
  Allowed p (complete_answered q r) = MayComplete q p
  Allowed p (fail_answered q r) = MayFail q p
  Allowed p (append_answered rs r) = MayAppend p
  Allowed p (begin_answered r) = MayBegin p
  Allowed p (commit_answered r) = MayCommit p
  Allowed p rolled_back = MayRollBack p
  Allowed p (waited n) = MayWait p
  Allowed p ran_out_of_fuel = ⊥

  -- where a run stands after its calls, the newest first
  abbrev pub phase : List (Call Number) → Phase
  phase [] = idle
  phase (c ∷ t) = next (phase t) c

  -- every call of the run was allowed where it was made
  abbrev pub Conforms : List (Call Number) → Type 0
  Conforms [] = Unit
  Conforms (c ∷ t) = Conforms t × Allowed (phase t) c

  abbrev pub At : Phase → List (Call Number) → Type 0
  At p t = Conforms t × (phase t ≡ p)

  -- the lease is held, outside a transaction
  abbrev pub AtLeased : Held → List (Call Number) → Type 0
  AtLeased h t = Conforms t × ((b : Bool) × (phase t ≡ leased h b))

-- inside a transaction of the attempt `h`
abbrev pub IsInside : Held → Phase → Type 0
IsInside h (working k b) = k ≡ h
IsInside h (stored k r) = k ≡ h
IsInside h (published k r) = k ≡ h
IsInside h (marking k) = k ≡ h
IsInside h _ = ⊥

-- a predicate on the calls, as one on the state
abbrev pub On : {W Number : Type 0} → (List (Call Number) → Type 0) → State W Number → Type 0
On K s = K s.trace
