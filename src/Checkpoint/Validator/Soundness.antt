-- ===== src/Checkpoint/Validator/Soundness.antt =====
-- What a decision of the validator means, from its first check to its last.
use tsagent.Prelude.{◌≡◌, refl, true, false, Option, some, none, List, []}
use tsagent.Prelude.Extends.{Extends, Extends-refl}
use tsagent.Prelude.Lists.{All}
use tsagent.Prelude.Text.{contains}
use tsagent.Platform.{Platform}
use tsagent.Checkpoint.Codes.{
  ResumeAction, is_terminal, is_allow, abandon_and_restart, resume_exact, replay_from_stage,
  replan_from_checkpoint,
}
use tsagent.Checkpoint.Contracts.{
  RunCheckpoint, ResumeContext, ResumeDecision, ExternalStateGuard, NoEffectConfirmation,
}
use tsagent.Checkpoint.Compatibility.{
  CompatibilityRegistry, CompatibilityAssessment, assess_compatibility,
}
use tsagent.Checkpoint.Validator.Decisions.{Outcome, continue, ◌>>=◌}
use tsagent.Checkpoint.Validator.Rules.{
  Evidence, IsProper-weaken, Refuses, Each, Each-settled, decides, goes_on, step-Each,
}
use tsagent.Checkpoint.Validator.AddressingLaws.{
  HasContext, Addressed, SameTarget, check_context-Passes, check_candidates-Passes,
  check_target-Passes, check_status-Passes, check_invalidation-Passes, check_permissions-Passes,
}
use tsagent.Checkpoint.Validator.Guards.{observations}
use tsagent.Checkpoint.Validator.GuardLaws.{ExternalStateHolds, check_external_state-Passes}
use tsagent.Checkpoint.Validator.ActionLaws.{
  SafeDecision, Refuses-SafeDecision, decide_action-SafeDecision, allowed-IsProper,
}
use tsagent.Checkpoint.Validator.StepLaws.{
  HasPosition, check_versions-Passes, check_confirmed_action-Passes, check_completion-Passes,
  check_position-Passes,
}
use tsagent.Checkpoint.Validator.Effects.{committed_active_task}
use tsagent.Checkpoint.Validator.{
  check_abandon, check_completion, check_position, decide_action, decide_resume, is_exact,
  is_abandon,
}

-- The facts behind a decision that allows, whatever the action.
pub record Cleared (p : Platform) (c : RunCheckpoint) (x : ResumeContext)
    (os : List ExternalStateGuard) (a : CompatibilityAssessment) : Type 0 where
  pub context : HasContext x
  pub addressed : Addressed c x.candidate_run_ids
  pub target : SameTarget p c x
  pub open_run : is_terminal c.status ≡ false
  pub valid : c.invalidation_reasons ≡ []
  pub permitted : All (λ r. contains x.available_permissions r ≡ true) x.required_permissions
  pub outside : ExternalStateHolds p c os
  pub schema : a.schema_compatible ≡ true
  pub contract : a.contract_compatible ≡ true

-- The facts behind an action that goes on with the Run.
pub record Resumable (c : RunCheckpoint) (x : ResumeContext) (a : CompatibilityAssessment)
    : Type 0 where
  pub completed : committed_active_task c ≡ false
  pub position : HasPosition c x a

abbrev pub GoesOn :
    RunCheckpoint → ResumeContext → CompatibilityAssessment → Option ResumeAction → Type 0
GoesOn c x a (some abandon_and_restart) = Unit
GoesOn c x a _ = Resumable c x a

module _ (p : Platform) (c : RunCheckpoint) (x : ResumeContext) (os : List ExternalStateGuard)
    (a : CompatibilityAssessment) (n : Option NoEffectConfirmation) where
  -- What every decision is, and what an allowing one rests on.
  pub record Sound (ev : Evidence) (d : ResumeDecision) : Type 0 where
    pub decision : SafeDecision p c x a n ev d
    pub cleared : is_allow d.disposition ≡ true → Cleared p c x os a
    pub resumable : is_allow d.disposition ≡ true → GoesOn c x a d.action

  Refuses-Sound : (ev : Evidence) (d : ResumeDecision) → Refuses c ev d → Sound ev d
  Refuses-Sound ev d r = record {
    decision = Refuses-SafeDecision p c x a n d r;
    cleared = λ h. cc (r.not_allowed);
    resumable = λ h. cc (r.not_allowed);
  }

  -- The rest of the checks, from the choice to abandon on.
  from_completion : Option ResumeAction → Evidence → Outcome ResumeDecision
  from_completion r ev = do
    ev11 ← check_completion c r ev
    ev12 ← check_position c x a ev11
    continue (decide_action p c x a n ev12 r)

  from_abandon : Option ResumeAction → Evidence → Outcome ResumeDecision
  from_abandon r ev = do ev10 ← check_abandon c r ev; from_completion r ev10

  finish :
      {base ev : Evidence} (r : Option ResumeAction)
      → Extends base ev
      → Cleared p c x os a
      → Resumable c x a
      → SafeDecision p c x a n ev (decide_action p c x a n ev r)
      → Sound base (decide_action p c x a n ev r)
  finish r e k go s = record {
    decision = record { proper = IsProper-weaken e s.proper; safe = s.safe };
    cleared = λ _. k;
    resumable = λ _. goes_on_by _ go;
  }
    where
      goes_on_by : (action : Option ResumeAction) → Resumable c x a → GoesOn c x a action
      goes_on_by none g = g
      goes_on_by (some abandon_and_restart) g = tt
      goes_on_by (some resume_exact) g = g
      goes_on_by (some replay_from_stage) g = g
      goes_on_by (some replan_from_checkpoint) g = g

  from_completion-Each :
      {base ev : Evidence} (r : Option ResumeAction)
      → x.requested_action ≡ r
      → is_abandon r ≡ false
      → (is_exact r ≡ false → n ≡ none)
      → Extends base ev
      → Cleared p c x os a
      → Each (Sound base) (Sound base) (from_completion r ev)
  unfolding from_completion
  from_completion-Each {base} {ev} r asked_for no_abandon alone e k =
      step-Each _ (Refuses-Sound base) e (check_completion-Passes c ev r) λ ev11 e11 whole.
        step-Each _ (Refuses-Sound base) e11 (check_position-Passes c ev11 x a) λ ev12 e12 place.
          goes_on (
            finish r e12 k (record { completed = whole; position = place })
              (decide_action-SafeDecision p c x a n ev12 r asked_for no_abandon alone))

  from_abandon-Each :
      {base ev : Evidence} (r : Option ResumeAction)
      → x.requested_action ≡ r
      → (is_exact r ≡ false → n ≡ none)
      → Extends base ev
      → Cleared p c x os a
      → Each (Sound base) (Sound base) (from_abandon r ev)
  unfolding from_abandon check_abandon
  from_abandon-Each (some abandon_and_restart) asked_for alone e k = decides (record {
    decision = record {
      proper = allowed-IsProper c abandon_and_restart _ _ _ e;
      safe = λ _. asked_for;
    };
    cleared = λ _. k;
    resumable = λ _. tt;
  })
  from_abandon-Each (some resume_exact) asked_for alone e k =
      from_completion-Each (some resume_exact) asked_for refl alone e k
  from_abandon-Each (some replay_from_stage) asked_for alone e k =
      from_completion-Each (some replay_from_stage) asked_for refl alone e k
  from_abandon-Each (some replan_from_checkpoint) asked_for alone e k =
      from_completion-Each (some replan_from_checkpoint) asked_for refl alone e k
  from_abandon-Each none asked_for alone e k = from_completion-Each none asked_for refl alone e k

-- Every decision of the checks is sound over the evidence of the checkpoint.
pub decide_resume-Sound :
    (p : Platform) (c : RunCheckpoint) (x : ResumeContext)
    (guards : Option (List ExternalStateGuard)) (n : Option NoEffectConfirmation)
    (registry : CompatibilityRegistry)
    → Sound p c x
        (observations guards x)
        (assess_compatibility p c x registry)
        n
        c.runtime_evidence
        (decide_resume p c x guards n registry)
unfolding decide_resume from_abandon from_completion
decide_resume-Sound p c x guards n registry =
    let os = observations guards x in
    let a = assess_compatibility p c x registry in
    let base = c.runtime_evidence in
    let refusal = Refuses-Sound p c x os a n base in
    Each-settled (
      step-Each _ refusal (Extends-refl base) (check_context-Passes c x base) λ ev1 e1 context.
        step-Each _ refusal e1 (check_candidates-Passes c x ev1 x.candidate_run_ids)
          λ ev2 e2 addressed.
            step-Each _ refusal e2 (check_target-Passes c x ev2 p) λ ev3 e3 target.
              step-Each _ refusal e3 (check_status-Passes c x ev3) λ ev4 e4 open_run.
                step-Each _ refusal e4 (check_invalidation-Passes c x ev4) λ ev5 e5 valid.
                  step-Each _ refusal e5 (check_permissions-Passes c x ev5) λ ev6 e6 permitted.
                    step-Each _ refusal e6 (check_external_state-Passes p c os ev6)
                      λ ev7 e7 outside.
                        step-Each _ refusal e7 (check_versions-Passes c ev7 a) λ ev8 e8 versions.
                          step-Each _ refusal e8
                            (check_confirmed_action-Passes c ev8 x.requested_action n)
                            λ ev9 e9 alone.
                              from_abandon-Each p c x os a n x.requested_action refl alone e9
                                (record {
                                  context = context;
                                  addressed = addressed;
                                  target = target;
                                  open_run = open_run;
                                  valid = valid;
                                  permitted = permitted;
                                  outside = outside;
                                  schema = versions.0;
                                  contract = versions.1;
                                }))
