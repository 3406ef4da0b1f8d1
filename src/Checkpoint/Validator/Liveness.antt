-- ===== src/Checkpoint/Validator/Liveness.antt =====
-- When `validate_resume` lets a Run go on.
use tsagent.Prelude.{◌≡◌, refl, ◌||◌, true, false, some, none, ◌⊎◌, inl, inr, [], eq_refl}
use tsagent.Prelude.Text.{is_empty, is_blank}
use tsagent.Prelude.Result.{ok}
use tsagent.Checkpoint.Validator.Guarantees.{validate_resume_total}
use tsagent.Platform.{Platform}
use tsagent.Checkpoint.Codes.{is_terminal, allow, resume_exact}
use tsagent.Checkpoint.Contracts.{RunCheckpoint, ResumeContext, ResumeDecision}
use tsagent.Checkpoint.Compatibility.{
  CompatibilityRegistry, assess_compatibility, assess_workflow, same_major_version,
}
use tsagent.Checkpoint.Validator.Addressing.{
  check_context, check_candidates, check_target, check_status, check_invalidation,
  check_permissions, missing_permissions,
}
use tsagent.Checkpoint.Validator.Guards.{
  check_external_state, check_free_guards, refuse_mismatch, uncertain_guards,
}
use tsagent.Checkpoint.Validator.Effects.{
  committed_active_task, settle_effects, unsafe_effects, refuse_unsafe,
}
use tsagent.Checkpoint.Validator.{
  check_versions, check_confirmed_action, check_abandon, check_completion, check_position,
  decide_action, decide_chosen, decide_resume, validate_resume,
}

-- A Run that nothing stands in the way of: the request is complete and means this Run, the Run is
-- open at a position, its permissions are there, no guard binds it, its effects are settled, and
-- the versions are equal, up to the minor ones of schema and contract.
pub record Ready (p : Platform) (c : RunCheckpoint) (x : ResumeContext) (r : CompatibilityRegistry)
    : Type 0 where
  pub context :
      (is_empty x.workflow_id || is_empty x.workflow_version || is_empty x.plan_version) ≡ false
  pub addressed : x.candidate_run_ids ≡ []
  pub target : is_empty x.requested_target ≡ true
  pub open_run : is_terminal c.status ≡ false
  pub valid : c.invalidation_reasons ≡ []
  pub permitted : missing_permissions x.required_permissions x.available_permissions ≡ []
  pub unbound : c.external_state_guards ≡ []
  pub unobserved : x.external_state_evidence ≡ []
  pub schema :
      same_major_version p c.checkpoint_schema_version r.current_checkpoint_schema_version ≡ true
  pub contract : same_major_version p c.contract_version r.current_contract_version ≡ true
  pub workflow : c.workflow_id ≡ x.workflow_id
  pub version : c.workflow_version ≡ x.workflow_version
  pub plan : c.plan_version ≡ x.plan_version
  pub completed : committed_active_task c ≡ false
  pub settled : unsafe_effects c ≡ []
  pub position : is_empty c.active_stage_id ≡ false
  pub stage : is_empty x.requested_stage_id ≡ true

module _ (p : Platform) (c : RunCheckpoint) (x : ResumeContext) (r : CompatibilityRegistry)
    (h : Ready p c x r) where
  Ready-exact :
      x.requested_action ≡ some resume_exact
      → ((decide_resume p c x none none r).disposition ≡ allow)
        × ((decide_resume p c x none none r).action ≡ some resume_exact)
  unfolding decide_resume check_context check_candidates check_target check_status
      check_invalidation check_permissions check_external_state check_free_guards refuse_mismatch
      check_versions check_confirmed_action check_abandon check_completion check_position
      decide_action decide_chosen assess_compatibility assess_workflow settle_effects refuse_unsafe
      uncertain_guards
  Ready-exact e =
      rw
        (
          h.context,
          h.addressed,
          h.target,
          h.open_run,
          h.valid,
          h.permitted,
          h.unbound,
          h.unobserved,
          h.schema,
          h.contract,
          h.workflow,
          h.version,
          h.plan,
          eq_refl x.workflow_id,
          eq_refl x.workflow_version,
          eq_refl x.plan_version,
          e,
          h.completed,
          h.position,
          h.stage,
          h.settled,
        )
        (refl, refl)

  Ready-open :
      x.requested_action ≡ none
      → ((decide_resume p c x none none r).disposition ≡ allow)
        × ((decide_resume p c x none none r).action ≡ some resume_exact)
  unfolding decide_resume check_context check_candidates check_target check_status
      check_invalidation check_permissions check_external_state check_free_guards refuse_mismatch
      check_versions check_confirmed_action check_abandon check_completion check_position
      decide_action decide_chosen assess_compatibility assess_workflow settle_effects refuse_unsafe
      uncertain_guards
  Ready-open e =
      rw
        (
          h.context,
          h.addressed,
          h.target,
          h.open_run,
          h.valid,
          h.permitted,
          h.unbound,
          h.unobserved,
          h.schema,
          h.contract,
          h.workflow,
          h.version,
          h.plan,
          eq_refl x.workflow_id,
          eq_refl x.workflow_version,
          eq_refl x.plan_version,
          e,
          h.completed,
          h.position,
          h.stage,
          h.settled,
        )
        (refl, refl)

-- A request to resume a ready Run exactly, or one that leaves the action open, is granted as an
-- exact resume: the checks do not refuse everything.
pub Ready-resume_exact :
    (p : Platform) (c : RunCheckpoint) (x : ResumeContext) (r : CompatibilityRegistry)
    → Ready p c x r
    → is_blank c.run_id ≡ false
    → is_blank c.checkpoint_id ≡ false
    → (x.requested_action ≡ some resume_exact) ⊎ (x.requested_action ≡ none)
    → (d : ResumeDecision) × (validate_resume p c x none none r ≡ ok d)
      × (d.disposition ≡ allow)
      × (d.action ≡ some resume_exact)
Ready-resume_exact p c x r h i j k = (
  decide_resume p c x none none r,
  validate_resume_total p c x none none r i j,
  granted.0,
  granted.1,
)
  where
    granted :
        ((decide_resume p c x none none r).disposition ≡ allow)
        × ((decide_resume p c x none none r).action ≡ some resume_exact)
    granted = elim k [ inl e ↦ Ready-exact p c x r h e | inr e ↦ Ready-open p c x r h e ]
