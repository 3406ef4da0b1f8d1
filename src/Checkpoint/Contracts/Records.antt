-- ===== src/Checkpoint/Contracts/Records.antt =====
-- The data classes of agent/checkpoint/contracts.py and the exceptions that they raise.
use tsagent.Prelude.{String, Bool, Option, List}
use tsagent.Prelude.Int.{ℤ}
use tsagent.Checkpoint.Codes.{
  CheckpointStatus, GuardStatus, ResumeAction, ResumeDisposition, ResumeReasonCode, SideEffectState,
}
use tsagent.Checkpoint.Json.{Fields}

pub record RuntimeEvidence : Type 0 where
  pub source : String
  pub kind : String
  pub expected : String
  pub observed : String
  pub status : String
  pub detail : String

pub record ExternalStateGuard : Type 0 where
  pub resource_id : String
  pub guard_type : String
  pub expected_value : String
  pub observed_value : String
  pub checked_at : String
  pub status : GuardStatus

pub record NoEffectConfirmation : Type 0 where
  pub task_id : String
  pub idempotency_key : String
  pub external_reference : String
  pub checked_at : String

pub record TaskEffectRecord : Type 0 where
  pub task_id : String
  pub tool_name : String
  pub operation_type : String
  pub idempotency_key : String
  pub effect_state : SideEffectState
  pub external_reference : String
  pub evidence : List RuntimeEvidence

pub record ArtifactSnapshot : Type 0 where
  pub artifact_id : String
  pub artifact_type : String
  pub digest : String
  pub exists : Bool
  pub version : String
  pub reference : String
  pub metadata : List (String × String)

pub record FailureEventSnapshot : Type 0 where
  pub event_id : String
  pub layer : String
  pub symptom : String
  pub failure : String
  pub evidence : List RuntimeEvidence

pub record ResumeContext : Type 0 where
  pub workflow_id : String
  pub workflow_version : String
  pub plan_version : String
  pub requested_action : Option ResumeAction
  pub requested_target : String
  pub candidate_run_ids : List String
  pub required_permissions : List String
  pub available_permissions : List String
  pub requested_stage_id : String
  pub requested_task_id : String
  pub stage_idempotent : Bool
  pub external_state_evidence : List ExternalStateGuard

pub record RunCheckpoint : Type 0 where
  pub run_id : String
  pub checkpoint_id : String
  pub parent_checkpoint_id : Option String
  pub sequence_number : ℤ
  pub session_id : String
  pub conversation_id : String
  pub user_scope : String
  pub workflow_id : String
  pub workflow_version : String
  pub plan_version : String
  pub active_stage_id : String
  pub active_task_id : String
  pub status : CheckpointStatus
  pub execution_plan : Fields
  pub target_summary : String
  pub activation_attempt_id : String
  pub completed_stage_ids : List String
  pub completed_task_ids : List String
  pub artifacts : List ArtifactSnapshot
  pub verifier_status : String
  pub failure_event : Option FailureEventSnapshot
  pub proposed_next_action : Option ResumeAction
  pub task_effect_records : List TaskEffectRecord
  pub idempotency_keys : List String
  pub external_state_guards : List ExternalStateGuard
  pub invalidation_reasons : List String
  pub runtime_evidence : List RuntimeEvidence
  pub checkpoint_schema_version : String
  pub contract_version : String
  pub created_at : String
  pub updated_at : String
  pub supersedes_run_id : Option String

pub record ResumeDecision : Type 0 where
  pub disposition : ResumeDisposition
  pub action : Option ResumeAction
  pub run_id : String
  pub checkpoint_id : String
  pub resume_stage_id : Option String
  pub resume_task_id : Option String
  pub resulting_status : CheckpointStatus
  pub reason_code : ResumeReasonCode
  pub evidence : List RuntimeEvidence
  pub clarification_question : Option String

-- One constructor for each `raise` of the module.
pub data ContractError : Type 0 where
  missing_identity : List String → ContractError
  negative_sequence initial_with_parent missing_parent self_parent : ContractError
  repeated_stage repeated_task repeated_key repeated_effect_task : ContractError
  unregistered_key not_json_like : ContractError
  decision_without_identity allow_without_action action_without_allow : ContractError
  clarification_status clarification_without_question : ContractError
