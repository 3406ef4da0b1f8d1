-- ===== src/Checkpoint/Codes.antt =====
-- agent/checkpoint/reason_codes.py: the frozen enums, with the texts of their members.
use tsagent.Prelude.{String, Bool, true, false}

pub data CheckpointStatus : Type 0 where
  created running suspended waiting_user : CheckpointStatus
  failed_recoverable failed_terminal completed cancelled : CheckpointStatus

pub data ResumeDisposition : Type 0 where
  allow require_clarification reject : ResumeDisposition

pub data ResumeAction : Type 0 where
  resume_exact replay_from_stage replan_from_checkpoint abandon_and_restart : ResumeAction

pub data SideEffectState : Type 0 where
  nothing not_started started committed : SideEffectState
  failed_before_commit failed_after_commit compensated undetermined : SideEffectState

pub data GuardStatus : Type 0 where
  verified unknown mismatch missing : GuardStatus

pub data ResumeReasonCode : Type 0 where
  allowed_exact allowed_replay allowed_replan allowed_abandon : ResumeReasonCode
  ambiguous_run target_conflict external_state_unknown : ResumeReasonCode
  external_state_mismatch missing_permission : ResumeReasonCode
  checkpoint_invalidated terminal_checkpoint no_resumable_position : ResumeReasonCode
  no_run_match missing_context : ResumeReasonCode
  schema_incompatible contract_incompatible : ResumeReasonCode
  workflow_incompatible plan_incompatible : ResumeReasonCode
  non_idempotent_stage duplicate_side_effect unknown_side_effect : ResumeReasonCode
  side_effect_in_progress invalid_requested_stage : ResumeReasonCode

-- `status.value`
abbrev pub status_value : CheckpointStatus → String
status_value created = "CREATED"
status_value running = "RUNNING"
status_value suspended = "SUSPENDED"
status_value waiting_user = "WAITING_USER"
status_value failed_recoverable = "FAILED_RECOVERABLE"
status_value failed_terminal = "FAILED_TERMINAL"
status_value completed = "COMPLETED"
status_value cancelled = "CANCELLED"

abbrev pub action_value : ResumeAction → String
action_value resume_exact = "RESUME_EXACT"
action_value replay_from_stage = "REPLAY_FROM_STAGE"
action_value replan_from_checkpoint = "REPLAN_FROM_CHECKPOINT"
action_value abandon_and_restart = "ABANDON_AND_RESTART"

abbrev pub effect_value : SideEffectState → String
effect_value nothing = "NONE"
effect_value not_started = "NOT_STARTED"
effect_value started = "STARTED"
effect_value committed = "COMMITTED"
effect_value failed_before_commit = "FAILED_BEFORE_COMMIT"
effect_value failed_after_commit = "FAILED_AFTER_COMMIT"
effect_value compensated = "COMPENSATED"
effect_value undetermined = "UNKNOWN"

abbrev pub guard_value : GuardStatus → String
guard_value verified = "VERIFIED"
guard_value unknown = "UNKNOWN"
guard_value mismatch = "MISMATCH"
guard_value missing = "MISSING"

-- `a is b` on the members that the validator compares
abbrev pub is_waiting_user : CheckpointStatus → Bool
is_waiting_user waiting_user = true
is_waiting_user _ = false

abbrev pub is_allow : ResumeDisposition → Bool
is_allow allow = true
is_allow _ = false

abbrev pub is_clarification : ResumeDisposition → Bool
is_clarification require_clarification = true
is_clarification _ = false

abbrev pub same_status : CheckpointStatus → CheckpointStatus → Bool
same_status created created = true
same_status running running = true
same_status suspended suspended = true
same_status waiting_user waiting_user = true
same_status failed_recoverable failed_recoverable = true
same_status failed_terminal failed_terminal = true
same_status completed completed = true
same_status cancelled cancelled = true
same_status _ _ = false

-- `_TERMINAL` of agent/checkpoint/validator.py
abbrev pub is_terminal : CheckpointStatus → Bool
is_terminal completed = true
is_terminal cancelled = true
is_terminal failed_terminal = true
is_terminal _ = false
