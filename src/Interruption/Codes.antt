-- ===== src/Interruption/Codes.antt =====
-- The enums of agent/interruption/contracts.py.
pub data InterruptionReason : Type 0 where
  user_cancel run_timeout stage_timeout : InterruptionReason
  tool_timeout provider_timeout service_shutdown : InterruptionReason

pub data InterruptionAction : Type 0 where
  cancel_at_safe_boundary time_out_at_safe_boundary : InterruptionAction
  suspend_at_safe_boundary delegate_to_decision : InterruptionAction

pub data InterruptionPhase : Type 0 where
  requested observed cancelling finalized : InterruptionPhase

pub data InterruptionResultStatus : Type 0 where
  cancelled timed_out suspended : InterruptionResultStatus

pub data CancellationSafetyClass : Type 0 where
  interruptible boundary_only non_cancellable_once_committed : CancellationSafetyClass

pub data SafeCancellationBoundary : Type 0 where
  before_planner after_planner before_tool after_tool : SafeCancellationBoundary
  before_workflow_activation after_finalization_bundle : SafeCancellationBoundary
  during_interruptible_wait : SafeCancellationBoundary

pub data AtomicRegion : Type 0 where
  sqlite_transaction artifact_digest_commit : AtomicRegion
  idempotency_finalization filesystem_atomic_replace : AtomicRegion
