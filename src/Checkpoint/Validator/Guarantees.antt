-- ===== src/Checkpoint/Validator/Guarantees.antt =====
-- What a caller of `validate_resume` may rely on.
use mathlib.Core.Path.{subst}
use tsagent.Prelude.{◌≡◌, ◌≢◌, refl, sym, ap, false, Option, some, none, List}
use tsagent.Prelude.Extends.{Extends}
use tsagent.Prelude.Result.{ok}
use tsagent.Prelude.Text.{is_blank}
use tsagent.Platform.{Platform}
use tsagent.Checkpoint.Codes.{
  ResumeAction, allow, resume_exact, replay_from_stage, replan_from_checkpoint, abandon_and_restart,
  is_allow, is_terminal, CheckpointStatus, ResumeDisposition, reject, require_clarification,
  running, waiting_user, cancelled,
}
use tsagent.Checkpoint.Contracts.{
  RunCheckpoint, ResumeContext, ResumeDecision, ExternalStateGuard, NoEffectConfirmation,
}
use tsagent.Checkpoint.Lifecycle.Graph.{Reach, reach_cancelled, reach_running}
use tsagent.Checkpoint.Compatibility.Verdicts.{
  Replannable, exact_allowed_sound, replan_allowed-Replannable, replay-exact,
}
use tsagent.Checkpoint.Validator.ActionLaws.{ActionSafe}
use tsagent.Checkpoint.Compatibility.{CompatibilityRegistry, assess_compatibility}
use tsagent.Checkpoint.Validator.Construction.{create_decision_passed, create_decision-eq-ok}
use tsagent.Checkpoint.Validator.Decisions.{resulting}
use tsagent.Checkpoint.Validator.Guards.{observations}
use tsagent.Checkpoint.Validator.Soundness.{Cleared, Resumable, GoesOn, Sound, decide_resume-Sound}
use tsagent.Checkpoint.Validator.{decide_resume, validate_resume}

-- The status that a decision stands for: the old one when it rejects, waiting for the user when it asks,
-- cancelled when it abandons the Run, and running when it goes on in another way.
pub data Leads (c : RunCheckpoint)
    : ResumeDisposition → Option ResumeAction → CheckpointStatus → Type 0 where
  rejects : (action : Option ResumeAction) → Leads c reject action c.status
  asks : (action : Option ResumeAction) → Leads c require_clarification action waiting_user
  abandons : Leads c allow (some abandon_and_restart) cancelled
  goes_on :
      (action : Option ResumeAction)
      → action ≢ some abandon_and_restart
      → Leads c allow action running

resulting-Leads :
    (c : RunCheckpoint) (disposition : ResumeDisposition) (action : Option ResumeAction)
    → Leads c disposition action (resulting c disposition action)
resulting-Leads c reject action = rejects action
resulting-Leads c require_clarification action = asks action
resulting-Leads c allow none = goes_on none (λ e. cc)
resulting-Leads c allow (some abandon_and_restart) = abandons
resulting-Leads c allow (some resume_exact) = goes_on (some resume_exact) (λ e. cc)
resulting-Leads c allow (some replay_from_stage) = goes_on (some replay_from_stage) (λ e. cc)
resulting-Leads c allow (some replan_from_checkpoint) =
    goes_on (some replan_from_checkpoint) (λ e. cc)

module _ (p : Platform) (c : RunCheckpoint) (x : ResumeContext)
    (guards : Option (List ExternalStateGuard)) (n : Option NoEffectConfirmation)
    (registry : CompatibilityRegistry) where
  -- For a checkpoint with its two identities, `validate_resume` never raises: every decision that
  -- its checks reach passes the constructor of `ResumeDecision`.
  pub validate_resume_total :
      is_blank c.run_id ≡ false
      → is_blank c.checkpoint_id ≡ false
      → validate_resume p c x guards n registry ≡ ok (decide_resume p c x guards n registry)
  unfolding validate_resume
  validate_resume_total r k =
      create_decision_passed _ (decide_resume-Sound p c x guards n registry).decision.proper r k

  decided_by :
      {d : ResumeDecision}
      → validate_resume p c x guards n registry ≡ ok d
      → d ≡ decide_resume p c x guards n registry
  unfolding validate_resume
  decided_by h = create_decision-eq-ok _ h

  grounds :
      {d : ResumeDecision}
      → validate_resume p c x guards n registry ≡ ok d
      → Sound p c x
          (observations guards x)
          (assess_compatibility p c x registry)
          n
          c.runtime_evidence
          d
  grounds h = rw (decided_by h) (decide_resume-Sound p c x guards n registry)

  -- A decision is about the checkpoint that was given, keeps all of its evidence in front of what
  -- the validator adds, and leads to the status that its disposition and action stand for: the old
  -- one when it rejects, waiting for the user when it asks, cancelled when the Run is abandoned, and
  -- running otherwise.
  pub validate_resume_audit :
      {d : ResumeDecision}
      → validate_resume p c x guards n registry ≡ ok d
      → Extends c.runtime_evidence d.evidence
        × (d.run_id ≡ c.run_id)
        × (d.checkpoint_id ≡ c.checkpoint_id)
        × Leads c d.disposition d.action d.resulting_status
  validate_resume_audit {d} h =
      let s = (grounds h).decision.proper in
      (
        s.keeps_evidence,
        s.of_run,
        s.of_checkpoint,
        subst (Leads c d.disposition d.action) (sym s.status_of)
            (resulting-Leads c d.disposition d.action),
      )

  -- A Run is resumed, planned anew or abandoned only with a complete context, when no other Run or
  -- target is meant, when the checkpoint is neither terminal nor invalidated, with every required
  -- permission, under compatible schema and contract versions, and when each guard of the
  -- checkpoint is confirmed by a fresh observation of the expected value.
  pub allowed-Cleared :
      {d : ResumeDecision}
      → validate_resume p c x guards n registry ≡ ok d
      → d.disposition ≡ allow
      → Cleared p c x (observations guards x) (assess_compatibility p c x registry)
  allowed-Cleared h e = (grounds h).cleared (ap is_allow e)

  -- An allowed action is the requested one, or one of the two that an open request leaves; an
  -- exact resume has every effect settled or confirmed as not done, a new plan has every effect
  -- settled, and a replay is of an idempotent stage whose active task left no effect behind.
  pub allowed-ActionSafe :
      {d : ResumeDecision}
      → validate_resume p c x guards n registry ≡ ok d
      → d.disposition ≡ allow
      → ActionSafe p c x (assess_compatibility p c x registry) n d.action
  allowed-ActionSafe h e = (grounds h).decision.safe (ap is_allow e)

  not_abandoned :
      (action : Option ResumeAction)
      → GoesOn c x (assess_compatibility p c x registry) action
      → action ≢ some abandon_and_restart
      → Resumable c x (assess_compatibility p c x registry)
  not_abandoned none g k = g
  not_abandoned (some abandon_and_restart) g k = absurd (k refl)
  not_abandoned (some replay_from_stage) g k = g
  not_abandoned (some replan_from_checkpoint) g k = g
  not_abandoned (some resume_exact) g k = g

  -- Unless the Run is abandoned, the allowed action has an active stage or a target to go on from;
  -- the stage is the one that was asked for, if one was; and a committed effect of the active task
  -- belongs to a task that the checkpoint has completed.
  pub allowed-Resumable :
      {d : ResumeDecision}
      → validate_resume p c x guards n registry ≡ ok d
      → d.disposition ≡ allow
      → d.action ≢ some abandon_and_restart
      → Resumable c x (assess_compatibility p c x registry)
  allowed-Resumable {d} h e k = not_abandoned d.action ((grounds h).resumable (ap is_allow e)) k

  workflow_of :
      (action : Option ResumeAction)
      → ActionSafe p c x (assess_compatibility p c x registry) n action
      → action ≢ some abandon_and_restart
      → Replannable p c x registry
  workflow_of none s k = absurd s
  workflow_of (some abandon_and_restart) s k = absurd (k refl)
  workflow_of (some replay_from_stage) s k =
      (exact_allowed_sound p c x registry (replay-exact p c x registry s.allowed)).0
  workflow_of (some replan_from_checkpoint) s k =
      replan_allowed-Replannable p c x registry s.allowed
  workflow_of (some resume_exact) s k = (exact_allowed_sound p c x registry s.allowed).0

  -- Unless the Run is abandoned, the allowed action belongs to the same workflow under equal major
  -- versions, at an equal version or one that a declared migration leads to.
  pub allowed-Replannable :
      {d : ResumeDecision}
      → validate_resume p c x guards n registry ≡ ok d
      → d.disposition ≡ allow
      → d.action ≢ some abandon_and_restart
      → Replannable p c x registry
  allowed-Replannable {d} h e k = workflow_of d.action (allowed-ActionSafe h e) k

  versions_of :
      (action : Option ResumeAction)
      → ActionSafe p c x (assess_compatibility p c x registry) n action
      → action ≢ some abandon_and_restart
      → action ≢ some replan_from_checkpoint
      → (c.workflow_version ≡ x.workflow_version) × (c.plan_version ≡ x.plan_version)
  versions_of none s k q = absurd s
  versions_of (some abandon_and_restart) s k q = absurd (k refl)
  versions_of (some replan_from_checkpoint) s k q = absurd (q refl)
  versions_of (some replay_from_stage) s k q =
      let (r, v, w) = exact_allowed_sound p c x registry (replay-exact p c x registry s.allowed) in
      (v, w)
  versions_of (some resume_exact) s k q =
      let (r, v, w) = exact_allowed_sound p c x registry s.allowed in (v, w)

  -- A Run that is allowed to go on without a new plan goes on under equal versions of workflow and
  -- plan.
  pub allowed_versions :
      {d : ResumeDecision}
      → validate_resume p c x guards n registry ≡ ok d
      → d.disposition ≡ allow
      → d.action ≢ some abandon_and_restart
      → d.action ≢ some replan_from_checkpoint
      → (c.workflow_version ≡ x.workflow_version) × (c.plan_version ≡ x.plan_version)
  allowed_versions {d} h e k q = versions_of d.action (allowed-ActionSafe h e) k q

  reachable :
      (s : CheckpointStatus) (action : Option ResumeAction)
      → is_terminal s ≡ false
      → Reach s (resulting c allow action)
  reachable s (some abandon_and_restart) h = reach_cancelled s h
  reachable s none h = reach_running s h
  reachable s (some resume_exact) h = reach_running s h
  reachable s (some replay_from_stage) h = reach_running s h
  reachable s (some replan_from_checkpoint) h = reach_running s h

  -- The status that an allowed action leads to can be reached from the checkpoint's status by
  -- transitions that the lifecycle table allows.
  pub allowed-Reach :
      {d : ResumeDecision}
      → validate_resume p c x guards n registry ≡ ok d
      → d.disposition ≡ allow
      → Reach c.status d.resulting_status
  allowed-Reach {d} h e =
      rw ((grounds h).decision.proper.status_of, e)
        (reachable c.status d.action (allowed-Cleared h e).open_run)
