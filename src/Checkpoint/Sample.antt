-- ===== src/Checkpoint/Sample.antt =====
-- A checkpoint, a context and their surroundings for the tests: a suspended Run with one guard and
-- one side effect that was started and never confirmed.
use tsagent.Prelude.{false, some, none, [], ◌∷◌}
use tsagent.Prelude.Int.{pos}
use tsagent.Checkpoint.Codes.{suspended, verified, unknown, started, resume_exact}
use tsagent.Checkpoint.Json.{end}
use tsagent.Checkpoint.Contracts.{
  RunCheckpoint, ResumeContext, ExternalStateGuard, NoEffectConfirmation, TaskEffectRecord,
}
use tsagent.Checkpoint.Compatibility.{CompatibilityRegistry}

abbrev pub sample_guard : ExternalStateGuard
sample_guard = record {
  resource_id = "repo";
  guard_type = "git_head";
  expected_value = "abc";
  observed_value = "";
  checked_at = "2026-01-01T00:00:00+00:00";
  status = unknown;
}

abbrev pub sample_observation : ExternalStateGuard
sample_observation = record sample_guard {
  observed_value = "abc";
  checked_at = "2026-01-02T00:00:00Z";
  status = verified;
}

abbrev pub sample_effect : TaskEffectRecord
sample_effect = record {
  task_id = "t1";
  tool_name = "send_mail";
  operation_type = "write";
  idempotency_key = "k1";
  effect_state = started;
  external_reference = "mail-7";
  evidence = [];
}

abbrev pub sample : RunCheckpoint
sample = record {
  run_id = "run";
  checkpoint_id = "c0";
  parent_checkpoint_id = none;
  sequence_number = pos 0;
  session_id = "session";
  conversation_id = "conversation";
  user_scope = "user";
  workflow_id = "wf";
  workflow_version = "1";
  plan_version = "1";
  active_stage_id = "s1";
  active_task_id = "t1";
  status = suspended;
  execution_plan = end;
  target_summary = "report";
  activation_attempt_id = "a1";
  completed_stage_ids = [];
  completed_task_ids = [];
  artifacts = [];
  verifier_status = "";
  failure_event = none;
  proposed_next_action = none;
  task_effect_records = sample_effect ∷ [];
  idempotency_keys = "k1" ∷ [];
  external_state_guards = sample_guard ∷ [];
  invalidation_reasons = [];
  runtime_evidence = [];
  checkpoint_schema_version = "1.0";
  contract_version = "v2.2A";
  created_at = "2026-01-01T00:00:00+00:00";
  updated_at = "2026-01-01T00:00:00+00:00";
  supersedes_run_id = none;
}

abbrev pub sample_context : ResumeContext
sample_context = record {
  workflow_id = "wf";
  workflow_version = "1";
  plan_version = "1";
  requested_action = some resume_exact;
  requested_target = "report";
  candidate_run_ids = "run" ∷ [];
  required_permissions = "mail" ∷ [];
  available_permissions = "mail" ∷ "files" ∷ [];
  requested_stage_id = "s1";
  requested_task_id = "";
  stage_idempotent = false;
  external_state_evidence = sample_observation ∷ [];
}

abbrev pub sample_confirmation : NoEffectConfirmation
sample_confirmation = record {
  task_id = "t1";
  idempotency_key = "k1";
  external_reference = "mail-7";
  checked_at = "2026-01-02T00:00:00Z";
}

abbrev pub sample_registry : CompatibilityRegistry
sample_registry = record {
  current_checkpoint_schema_version = "1.2";
  current_contract_version = "v2.2";
  workflow_migrations = [];
}
