-- ===== src/Checkpoint/Validator/Examples.antt =====
-- A resume that the validator allows, with the guarantees applied to it.
use tsagent.Prelude.{◌≡◌, ◌≢◌, refl, some, none, []}
use tsagent.Platform.{plain_platform}
use tsagent.Prelude.Extends.{Extends}
use tsagent.Prelude.Result.{ok}
use tsagent.Prelude.Text.{strip}
use tsagent.Checkpoint.Codes.{allow, abandon_and_restart, replan_from_checkpoint, resume_exact}
use tsagent.Checkpoint.Contracts.{ResumeDecision}
use tsagent.Checkpoint.Compatibility.{assess_compatibility, same_major_version, assess_workflow}
use tsagent.Checkpoint.Compatibility.Verdicts.{Replannable}
use tsagent.Checkpoint.Lifecycle.Graph.{Reach}
use tsagent.Checkpoint.Sample.{sample, sample_context, sample_confirmation, sample_registry}
use tsagent.Checkpoint.Validator.Guards.{
  observations, check_external_state, check_bound_guards, is_fresh,
}
use tsagent.Checkpoint.Validator.Effects.{committed_active_task, unsafe_effects}
use tsagent.Checkpoint.Validator.Addressing.{
  missing_permissions, target_key, check_context, check_candidates, check_target, check_status,
  check_invalidation, check_permissions,
}
use tsagent.Checkpoint.Validator.ActionLaws.{ActionSafe}
use tsagent.Checkpoint.Validator.Soundness.{Resumable, Cleared}
use tsagent.Prelude.{inl}
use tsagent.Checkpoint.Contracts.{RunCheckpoint, ResumeContext}
use tsagent.Checkpoint.Validator.Liveness.{Ready, Ready-resume_exact}
use tsagent.Checkpoint.Validator.Guarantees.{
  Leads, validate_resume_total, validate_resume_audit, allowed-Cleared, allowed-ActionSafe,
  allowed-Replannable, allowed-Resumable, allowed_versions, allowed-Reach,
}
use tsagent.Checkpoint.Validator.{
  check_versions, check_confirmed_action, check_abandon, check_completion, check_position,
  decide_action, decide_resume, validate_resume,
}

abbrev resumed : ResumeDecision
resumed =
    decide_resume plain_platform sample sample_context none (some sample_confirmation)
      sample_registry

resumed_allow : (resumed.disposition ≡ allow) × (resumed.action ≡ some resume_exact)
unfolding decide_resume check_context check_candidates check_target check_status check_invalidation
    check_permissions check_external_state check_versions check_confirmed_action check_abandon
    check_completion check_position decide_action assess_compatibility target_key check_bound_guards
    is_fresh same_major_version assess_workflow
resumed_allow = (refl, refl)

no_abandon : resumed.action ≢ some abandon_and_restart
no_abandon h = cc (resumed_allow.1)

no_replan : resumed.action ≢ some replan_from_checkpoint
no_replan h = cc (resumed_allow.1)

validated :
    validate_resume plain_platform sample sample_context none
      (some sample_confirmation)
      sample_registry
    ≡ ok resumed
unfolding strip
validated =
    validate_resume_total plain_platform sample sample_context none (some sample_confirmation)
      sample_registry refl refl

validate_resume_total_example :
    validate_resume plain_platform sample sample_context none
      (some sample_confirmation)
      sample_registry
    ≡ ok resumed
unfolding strip
validate_resume_total_example =
    validate_resume_total plain_platform sample sample_context none (some sample_confirmation)
      sample_registry refl refl

validate_resume_audit_example :
    Extends sample.runtime_evidence resumed.evidence
    × (resumed.run_id ≡ sample.run_id)
    × (resumed.checkpoint_id ≡ sample.checkpoint_id)
    × Leads sample resumed.disposition resumed.action resumed.resulting_status
validate_resume_audit_example =
    validate_resume_audit plain_platform sample sample_context none (some sample_confirmation)
      sample_registry validated

allowed-Cleared_example :
    Cleared plain_platform sample sample_context
      (observations none sample_context)
      (assess_compatibility plain_platform sample sample_context sample_registry)
allowed-Cleared_example =
    allowed-Cleared plain_platform sample sample_context none (some sample_confirmation)
      sample_registry validated (resumed_allow.0)

allowed-ActionSafe_example :
    ActionSafe plain_platform sample sample_context
      (assess_compatibility plain_platform sample sample_context sample_registry)
      (some sample_confirmation)
      resumed.action
allowed-ActionSafe_example =
    allowed-ActionSafe plain_platform sample sample_context none (some sample_confirmation)
      sample_registry validated (resumed_allow.0)

allowed-Resumable_example :
    Resumable sample sample_context
      (assess_compatibility plain_platform sample sample_context sample_registry)
allowed-Resumable_example =
    allowed-Resumable plain_platform sample sample_context none (some sample_confirmation)
      sample_registry validated (resumed_allow.0) no_abandon

allowed-Replannable_example : Replannable plain_platform sample sample_context sample_registry
allowed-Replannable_example =
    allowed-Replannable plain_platform sample sample_context none (some sample_confirmation)
      sample_registry validated (resumed_allow.0) no_abandon

allowed_versions_example :
    (sample.workflow_version ≡ sample_context.workflow_version)
    × (sample.plan_version ≡ sample_context.plan_version)
allowed_versions_example =
    allowed_versions plain_platform sample sample_context none (some sample_confirmation)
      sample_registry validated (resumed_allow.0) no_abandon no_replan

allowed-Reach_example : Reach sample.status resumed.resulting_status
allowed-Reach_example =
    allowed-Reach plain_platform sample sample_context none (some sample_confirmation)
      sample_registry validated (resumed_allow.0)

-- The sample without its guard and its effect.
abbrev free : RunCheckpoint
free = record sample { task_effect_records = []; external_state_guards = [] }

abbrev plain_context : ResumeContext
plain_context = record sample_context {
  requested_target = "";
  candidate_run_ids = [];
  requested_stage_id = "";
  external_state_evidence = [];
}

free-Ready : Ready plain_platform free plain_context sample_registry
unfolding missing_permissions same_major_version committed_active_task unsafe_effects
free-Ready = record {
  context = refl;
  addressed = refl;
  target = refl;
  open_run = refl;
  valid = refl;
  permitted = refl;
  unbound = refl;
  unobserved = refl;
  schema = refl;
  contract = refl;
  workflow = refl;
  version = refl;
  plan = refl;
  completed = refl;
  settled = refl;
  position = refl;
  stage = refl;
}

Ready-resume_exact_example :
    (d : ResumeDecision) × (validate_resume plain_platform free plain_context none none
        sample_registry
      ≡ ok d)
    × (d.disposition ≡ allow)
    × (d.action ≡ some resume_exact)
unfolding strip
Ready-resume_exact_example =
    Ready-resume_exact plain_platform free plain_context sample_registry free-Ready refl refl
      (inl refl)
