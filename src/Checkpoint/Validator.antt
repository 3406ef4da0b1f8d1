-- ===== src/Checkpoint/Validator.antt =====
-- agent/checkpoint/validator.py: the decision to resume a Run from a checkpoint.
mod Decisions
mod Addressing
mod Guards
mod Effects
mod Meaning
mod Rules
mod AddressingLaws
mod GuardLaws
mod EffectLaws
mod ActionLaws
mod StepLaws
mod Construction
pub mod Soundness
pub mod Guarantees
pub mod Liveness
mod Examples
use tsagent.Prelude.{
  String, Bool, true, false, not, ◌&&◌, ◌||◌, Option, none, some, List, [], ◌∷◌, ◌++◌, ◌==◌,
  is_some, if◌then◌else◌,
}
use tsagent.Prelude.Result.{Result}
use tsagent.Prelude.Text.{is_empty}
use tsagent.Platform.{Platform}
use tsagent.Checkpoint.Codes.{
  ResumeAction, ResumeReasonCode, allow, resume_exact, replay_from_stage, replan_from_checkpoint,
  abandon_and_restart, action_value, allowed_exact, allowed_replay, allowed_replan, allowed_abandon,
  schema_incompatible, contract_incompatible, unknown_side_effect, duplicate_side_effect,
  workflow_incompatible, plan_incompatible, no_resumable_position, invalid_requested_stage,
  non_idempotent_stage,
}
use tsagent.Checkpoint.Contracts.{
  RunCheckpoint, ResumeContext, ResumeDecision, ExternalStateGuard, NoEffectConfirmation,
  RuntimeEvidence, ContractError, is_nil, create_decision,
}
use tsagent.Checkpoint.Compatibility.{
  CompatibilityRegistry, CompatibilityAssessment, assess_compatibility,
}
use Decisions.{
  Outcome, decided, continue, ◌>>=◌, settled, noted, make_decision, ask, deny, reject_with,
  clarify_with,
}
use Addressing.{
  check_context, check_candidates, check_target, check_status, check_invalidation,
  check_permissions,
}
use Guards.{check_external_state, observations}
use Effects.{
  committed_active_task, replay_blocking, replay_reason, unsafe_effects, state_names,
  settle_effects,
}

abbrev pub Evidence : Type 0
Evidence = List RuntimeEvidence

abbrev pub allowed_decision :
    RunCheckpoint
    → ResumeAction
    → ResumeReasonCode
    → Evidence
    → Option String
    → Option String
    → ResumeDecision
allowed_decision c action reason ev stage task =
    make_decision c allow (some action) reason ev stage task none

-- `value or None`
abbrev or_none : String → Option String
or_none s = if is_empty s then none else some s

-- `assessment.reason_code or fallback`
abbrev reason_or : CompatibilityAssessment → ResumeReasonCode → ResumeReasonCode
reason_or a fallback = elim a.reason_code [ none ↦ fallback | some r ↦ r ]

pub check_versions : RunCheckpoint → CompatibilityAssessment → Evidence → Outcome Evidence
check_versions c a ev =
    if not a.schema_compatible
    then deny c schema_incompatible (ev ++ a.evidence)
    else if not a.contract_compatible
    then deny c contract_incompatible (ev ++ a.evidence)
    else continue (ev ++ a.evidence)

abbrev pub is_exact : Option ResumeAction → Bool
is_exact (some resume_exact) = true
is_exact _ = false

abbrev pub is_replay : Option ResumeAction → Bool
is_replay (some replay_from_stage) = true
is_replay _ = false

abbrev pub is_abandon : Option ResumeAction → Bool
is_abandon (some abandon_and_restart) = true
is_abandon _ = false

abbrev requested_name : Option ResumeAction → String
requested_name none = "unspecified action"
requested_name (some a) = action_value a

-- a confirmation comes with the request of an exact resume only
pub check_confirmed_action :
    RunCheckpoint → Option ResumeAction → Option NoEffectConfirmation → Evidence → Outcome Evidence
check_confirmed_action c requested confirmation ev =
    if is_some confirmation && not (is_exact requested)
    then deny c unknown_side_effect (
        noted ev "no_effect_confirmation" (action_value resume_exact) (requested_name requested)
          "MISMATCH" "")
    else continue ev

pub check_abandon : RunCheckpoint → Option ResumeAction → Evidence → Outcome Evidence
check_abandon c requested ev =
    if is_abandon requested
    then decided (allowed_decision c abandon_and_restart allowed_abandon ev none none)
    else continue ev

abbrev completion_evidence : RunCheckpoint → Evidence → Evidence
completion_evidence c ev =
    noted ev "side_effect_completion_boundary" "committed active task is marked completed"
      c.active_task_id "UNKNOWN" ""

pub check_completion : RunCheckpoint → Option ResumeAction → Evidence → Outcome Evidence
unfolding committed_active_task
check_completion c requested ev =
    if not (committed_active_task c)
    then continue ev
    else if is_replay requested
    then deny c duplicate_side_effect (completion_evidence c ev)
    else ask c duplicate_side_effect (completion_evidence c ev)
        "当前任务的副作用已经提交，但完成边界未确认，请先确认是否应从后续任务继续。"

pub check_position :
    RunCheckpoint → ResumeContext → CompatibilityAssessment → Evidence → Outcome Evidence
check_position c x a ev =
    if not a.workflow_same && not a.workflow_migratable
    then deny c workflow_incompatible ev
    else if is_empty c.active_stage_id && is_empty c.target_summary
    then deny c no_resumable_position ev
    else if not (is_empty x.requested_stage_id) && not (x.requested_stage_id == c.active_stage_id)
    then deny c invalid_requested_stage
        (noted ev "resume_stage" c.active_stage_id x.requested_stage_id "MISMATCH" "")
    else continue ev

decide_replay : RunCheckpoint → ResumeContext → CompatibilityAssessment → Evidence → ResumeDecision
unfolding replay_blocking replay_reason state_names
decide_replay c x a ev =
    if not a.replay_allowed
    then reject_with c (reason_or a plan_incompatible) ev
    else if not x.stage_idempotent
    then reject_with c non_idempotent_stage
        (noted ev "stage_idempotency" "true" "false" "REJECTED" "")
    else if not (is_nil (replay_blocking c))
    then reject_with c (replay_reason (replay_blocking c)) (
        noted ev "side_effect_replay_safety" "no committed/in-progress/unknown effects"
          (state_names (replay_blocking c)) "REJECTED" "")
    else allowed_decision c replay_from_stage allowed_replay ev (some c.active_stage_id)
        (some c.active_task_id)

decide_replan : RunCheckpoint → CompatibilityAssessment → Evidence → ResumeDecision
unfolding unsafe_effects state_names
decide_replan c a ev =
    if not a.replan_allowed
    then reject_with c (reason_or a workflow_incompatible) ev
    else if not (is_nil (unsafe_effects c))
    then clarify_with c unknown_side_effect
        (noted ev "side_effect_replan_safety" "no unknown/in-progress effects"
          (state_names (unsafe_effects c)) "UNKNOWN" "")
        "旧 Run 的副作用状态尚未确认，无法安全重新规划。"
    else allowed_decision c replan_from_checkpoint allowed_replan ev (or_none c.active_stage_id)
        (or_none c.active_task_id)

-- the action of an exact or an unspecified request
abbrev pub chosen : Bool → ResumeAction
chosen true = resume_exact
chosen false = replan_from_checkpoint

abbrev pub chosen_reason : ResumeAction → ResumeReasonCode
chosen_reason resume_exact = allowed_exact
chosen_reason _ = allowed_replan

decide_chosen :
    Platform
    → RunCheckpoint
    → Option NoEffectConfirmation
    → ResumeAction
    → Evidence
    → ResumeDecision
unfolding settle_effects
decide_chosen p c confirmation action ev = settled do
  ev' ← settle_effects p c confirmation ev
  continue (
      allowed_decision c action (chosen_reason action) ev' (some c.active_stage_id)
        (some c.active_task_id))

-- The rest of the function, by the requested action. `check_abandon` has taken the abandoned Runs.
pub decide_action :
    Platform
    → RunCheckpoint
    → ResumeContext
    → CompatibilityAssessment
    → Option NoEffectConfirmation
    → Evidence
    → Option ResumeAction
    → ResumeDecision
unfolding decide_replay decide_replan decide_chosen
decide_action p c x a confirmation ev (some replay_from_stage) = decide_replay c x a ev
decide_action p c x a confirmation ev (some replan_from_checkpoint) = decide_replan c a ev
decide_action p c x a confirmation ev (some resume_exact) =
    if not a.exact_allowed
    then reject_with c (reason_or a plan_incompatible) ev
    else decide_chosen p c confirmation resume_exact ev
decide_action p c x a confirmation ev _ =
    if not a.exact_allowed && not a.replan_allowed
    then reject_with c (reason_or a workflow_incompatible) ev
    else decide_chosen p c confirmation (chosen a.exact_allowed) ev

-- The checks in the order of the source, up to the choice of the action.
pub decide_resume :
    Platform
    → RunCheckpoint
    → ResumeContext
    → Option (List ExternalStateGuard)
    → Option NoEffectConfirmation
    → CompatibilityRegistry
    → ResumeDecision
decide_resume p c x guards confirmation registry = settled do
  ev1 ← check_context c x c.runtime_evidence
  ev2 ← check_candidates c x.candidate_run_ids ev1
  ev3 ← check_target p c x ev2
  ev4 ← check_status c ev3
  ev5 ← check_invalidation c ev4
  ev6 ← check_permissions c x ev5
  ev7 ← check_external_state p c (observations guards x) ev6
  ev8 ← check_versions c (assess_compatibility p c x registry) ev7
  ev9 ← check_confirmed_action c x.requested_action confirmation ev8
  ev10 ← check_abandon c x.requested_action ev9
  ev11 ← check_completion c x.requested_action ev10
  ev12 ← check_position c x (assess_compatibility p c x registry) ev11
  continue (
      decide_action p c x (assess_compatibility p c x registry) confirmation ev12
        x.requested_action)

-- Whatever the checks decide is built by the constructor of `ResumeDecision`, which may raise.
pub validate_resume :
    Platform
    → RunCheckpoint
    → ResumeContext
    → Option (List ExternalStateGuard)
    → Option NoEffectConfirmation
    → CompatibilityRegistry
    → Result ContractError ResumeDecision
validate_resume p c x guards confirmation registry =
    create_decision (decide_resume p c x guards confirmation registry)
