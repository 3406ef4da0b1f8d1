-- ===== src/Checkpoint/Lifecycle.antt =====
-- agent/checkpoint/lifecycle.py: the transition table and the two ways to extend a chain.
pub mod Graph
pub mod Chain
pub mod Progress
use tsagent.Prelude.{
  String, Bool, true, false, not, ◌&&◌, Option, none, some, List, [], ◌∷◌, ◌==◌, if◌then◌else◌,
}
use tsagent.Prelude.Int.{ℤ, increment}
use tsagent.Prelude.Lists.{any}
use tsagent.Prelude.Result.{Result, ok, err}
use tsagent.Prelude.Text.{is_blank, strip}
use tsagent.Checkpoint.Codes.{
  CheckpointStatus, ResumeAction, created, running, suspended, waiting_user, failed_recoverable,
  failed_terminal, completed, cancelled, same_status,
}
use tsagent.Checkpoint.Json.{Fields}
use tsagent.Checkpoint.Contracts.{
  RunCheckpoint, ArtifactSnapshot, FailureEventSnapshot, TaskEffectRecord, ExternalStateGuard,
  RuntimeEvidence, ContractError, create,
}

-- `ALLOWED_TRANSITIONS` and `allowed_transition`
unfoldable pub allowed_transition : CheckpointStatus → CheckpointStatus → Bool
allowed_transition created running = true
allowed_transition created cancelled = true
allowed_transition running suspended = true
allowed_transition running waiting_user = true
allowed_transition running failed_recoverable = true
allowed_transition running failed_terminal = true
allowed_transition running completed = true
allowed_transition suspended running = true
allowed_transition suspended waiting_user = true
allowed_transition suspended cancelled = true
allowed_transition waiting_user suspended = true
allowed_transition waiting_user cancelled = true
allowed_transition failed_recoverable suspended = true
allowed_transition failed_recoverable waiting_user = true
allowed_transition failed_recoverable cancelled = true
allowed_transition _ _ = false

pub data LifecycleError : Type 0 where
  invalid_transition : CheckpointStatus → CheckpointStatus → LifecycleError
  protected_change blank_checkpoint_id same_checkpoint_id : LifecycleError
  contract : ContractError → LifecycleError

-- A keyword of `**changes`: a field and its new value.
pub data Change : Type 0 where
  run_id session_id conversation_id user_scope : String → Change
  workflow_id workflow_version plan_version : String → Change
  parent_checkpoint_id : Option String → Change
  sequence_number : ℤ → Change
  status : CheckpointStatus → Change
  active_stage_id active_task_id target_summary : String → Change
  activation_attempt_id verifier_status : String → Change
  checkpoint_schema_version contract_version created_at : String → Change
  execution_plan : Fields → Change
  completed_stage_ids completed_task_ids : List String → Change
  idempotency_keys invalidation_reasons : List String → Change
  artifacts : List ArtifactSnapshot → Change
  failure_event : Option FailureEventSnapshot → Change
  proposed_next_action : Option ResumeAction → Change
  task_effect_records : List TaskEffectRecord → Change
  external_state_guards : List ExternalStateGuard → Change
  runtime_evidence : List RuntimeEvidence → Change
  supersedes_run_id : Option String → Change

-- The names that both functions protect, and that can be keywords of `changes`.
abbrev pub is_identity : Change → Bool
is_identity (run_id _) = true
is_identity (session_id _) = true
is_identity (conversation_id _) = true
is_identity (user_scope _) = true
is_identity (workflow_id _) = true
is_identity (workflow_version _) = true
is_identity (plan_version _) = true
is_identity (parent_checkpoint_id _) = true
is_identity (sequence_number _) = true
is_identity _ = false

-- `advance_checkpoint` protects the status too; `append_checkpoint` has it as a parameter.
abbrev pub is_protected : Change → Bool
is_protected (status _) = true
is_protected change = is_identity change

unfoldable pub apply_change : RunCheckpoint → Change → RunCheckpoint
apply_change c (run_id v) = record c { run_id = v }
apply_change c (session_id v) = record c { session_id = v }
apply_change c (conversation_id v) = record c { conversation_id = v }
apply_change c (user_scope v) = record c { user_scope = v }
apply_change c (workflow_id v) = record c { workflow_id = v }
apply_change c (workflow_version v) = record c { workflow_version = v }
apply_change c (plan_version v) = record c { plan_version = v }
apply_change c (parent_checkpoint_id v) = record c { parent_checkpoint_id = v }
apply_change c (sequence_number v) = record c { sequence_number = v }
apply_change c (status v) = record c { status = v }
apply_change c (active_stage_id v) = record c { active_stage_id = v }
apply_change c (active_task_id v) = record c { active_task_id = v }
apply_change c (target_summary v) = record c { target_summary = v }
apply_change c (activation_attempt_id v) = record c { activation_attempt_id = v }
apply_change c (verifier_status v) = record c { verifier_status = v }
apply_change c (checkpoint_schema_version v) = record c { checkpoint_schema_version = v }
apply_change c (contract_version v) = record c { contract_version = v }
apply_change c (created_at v) = record c { created_at = v }
apply_change c (execution_plan v) = record c { execution_plan = v }
apply_change c (completed_stage_ids v) = record c { completed_stage_ids = v }
apply_change c (completed_task_ids v) = record c { completed_task_ids = v }
apply_change c (idempotency_keys v) = record c { idempotency_keys = v }
apply_change c (invalidation_reasons v) = record c { invalidation_reasons = v }
apply_change c (artifacts v) = record c { artifacts = v }
apply_change c (failure_event v) = record c { failure_event = v }
apply_change c (proposed_next_action v) = record c { proposed_next_action = v }
apply_change c (task_effect_records v) = record c { task_effect_records = v }
apply_change c (external_state_guards v) = record c { external_state_guards = v }
apply_change c (runtime_evidence v) = record c { runtime_evidence = v }
apply_change c (supersedes_run_id v) = record c { supersedes_run_id = v }

-- the fields of `changes`, given anew
unfoldable pub apply_changes : RunCheckpoint → List Change → RunCheckpoint
unfolding apply_change
apply_changes c [] = c
apply_changes c (x ∷ xs) = apply_changes (apply_change c x) xs

abbrev pub lift_contract : Result ContractError RunCheckpoint → Result LifecycleError RunCheckpoint
lift_contract (ok c) = ok c
lift_contract (err e) = err (contract e)

-- `values.update(...)` over the changes
abbrev pub extended :
    RunCheckpoint → CheckpointStatus → String → String → List Change → RunCheckpoint
extended c target new_id at changes = record (apply_changes c changes) {
  checkpoint_id = new_id;
  parent_checkpoint_id = some c.checkpoint_id;
  sequence_number = increment c.sequence_number;
  status = target;
  updated_at = at;
}

-- The tail that both functions share; `replace` runs the constructor, which checks the fields.
unfoldable pub extend :
    RunCheckpoint
    → CheckpointStatus
    → String
    → String
    → List Change
    → Result LifecycleError RunCheckpoint
extend c target new_id at changes =
    if is_blank new_id
    then err blank_checkpoint_id
    else if new_id == c.checkpoint_id
    then err same_checkpoint_id
    else lift_contract (create (extended c target new_id at changes))

-- `validate_transition`, and then the rest of the caller
abbrev pub with_transition {ℓ} :
    {B : Type ℓ} → (LifecycleError → B) → CheckpointStatus → CheckpointStatus → B → B
with_transition fail current target k =
    if allowed_transition current target then k else fail (invalid_transition current target)

unfoldable pub advance_checkpoint :
    RunCheckpoint
    → CheckpointStatus
    → String
    → String
    → List Change
    → Result LifecycleError RunCheckpoint
advance_checkpoint c target new_id at changes =
    with_transition err c.status target
      (if any is_protected changes then err protected_change else extend c target new_id at changes)

-- `status or checkpoint.status`
abbrev pub target_of : Option CheckpointStatus → RunCheckpoint → CheckpointStatus
target_of none c = c.status
target_of (some s) c = s

unfoldable pub append_checkpoint :
    RunCheckpoint
    → Option CheckpointStatus
    → String
    → String
    → List Change
    → Result LifecycleError RunCheckpoint
append_checkpoint c given new_id at changes =
    let target = target_of given c in
    if not (same_status target c.status) && not (allowed_transition c.status target)
    then err (invalid_transition c.status target)
    else if any is_identity changes
    then err protected_change
    else extend c target new_id at changes
