-- ===== src/Checkpoint/Validator/StepLaws.antt =====
-- The middle part of the validator: versions, the confirmed action, completion and position.
use tsagent.Prelude.{
  ◌≡◌, ◌⊎◌, refl, Bool, true, false, not, ◌&&◌, Option, some, none, arith, is_some, not-false,
  not-true, ◌==◌, String, eq_iff,
}
use tsagent.Prelude.Extends.{Extends-refl, Extends-append}
use tsagent.Prelude.Text.{is_empty}
use tsagent.Checkpoint.Codes.{ResumeAction}
use tsagent.Checkpoint.Contracts.{RunCheckpoint, ResumeContext, NoEffectConfirmation}
use tsagent.Checkpoint.Compatibility.{CompatibilityAssessment}
use tsagent.Checkpoint.Validator.Rules.{
  Evidence, Passes, Each-if, decides, goes_on, reject-Refuses, denied, asked, unchanged,
}
use tsagent.Checkpoint.Validator.Effects.{committed_active_task}
use tsagent.Checkpoint.Validator.{
  check_versions, check_confirmed_action, check_completion, check_position, is_exact, is_replay,
}

pub record HasPosition (c : RunCheckpoint) (x : ResumeContext) (a : CompatibilityAssessment)
    : Type 0 where
  pub workflow : (not a.workflow_same && not a.workflow_migratable) ≡ false
  pub position : (is_empty c.active_stage_id && is_empty c.target_summary) ≡ false
  pub stage : (is_empty x.requested_stage_id ≡ true) ⊎ (x.requested_stage_id ≡ c.active_stage_id)

named_stage :
    (s t : String) → (not (is_empty s) && not (s == t)) ≡ false → (is_empty s ≡ true) ⊎ (s ≡ t)
named_stage s t h = ground (arith, eq_iff s t)

none_given {ℓ} :
    {A : Type ℓ} (o : Option A) (b : Bool) → (is_some o && not b) ≡ false → b ≡ false → o ≡ none
none_given none b h k = refl
none_given (some v) b h k = cc

module _ (c : RunCheckpoint) (ev : Evidence) where
  pub check_versions-Passes :
      (a : CompatibilityAssessment)
      → Passes c ev
          ((a.schema_compatible ≡ true) × (a.contract_compatible ≡ true))
          (check_versions c a ev)
  unfolding check_versions
  check_versions-Passes a =
      Each-if (not a.schema_compatible) _ _ (λ h. denied _)
        λ h1.
          Each-if (not a.contract_compatible) _ _ (λ h. denied _)
            λ h2. goes_on (Extends-append ev _, (not-false _ h1, not-false _ h2))

  pub check_confirmed_action-Passes :
      (r : Option ResumeAction) (n : Option NoEffectConfirmation)
      → Passes c ev (is_exact r ≡ false → n ≡ none) (check_confirmed_action c r n ev)
  unfolding check_confirmed_action
  check_confirmed_action-Passes r n =
      Each-if (is_some n && not (is_exact r)) _ _ (λ h. denied _)
        (λ h. unchanged (none_given n (is_exact r) h))

  pub check_completion-Passes :
      (r : Option ResumeAction)
      → Passes c ev (committed_active_task c ≡ false) (check_completion c r ev)
  unfolding check_completion
  check_completion-Passes r =
      Each-if (not (committed_active_task c)) _ _ (λ h. unchanged (not-true _ h))
        λ h. Each-if (is_replay r) _ _ (λ _. denied _) (λ _. asked _ refl)

  pub check_position-Passes :
      (x : ResumeContext) (a : CompatibilityAssessment)
      → Passes c ev (HasPosition c x a) (check_position c x a ev)
  unfolding check_position
  check_position-Passes x a =
      Each-if (not a.workflow_same && not a.workflow_migratable) _ _
        (λ h. decides (reject-Refuses c _ (Extends-refl ev)))
        λ h1.
          Each-if (is_empty c.active_stage_id && is_empty c.target_summary) _ _
            (λ h. decides (reject-Refuses c _ (Extends-refl ev)))
            λ h2.
              Each-if
                (not (is_empty x.requested_stage_id)
                  && not (x.requested_stage_id == c.active_stage_id))
                _ _ (λ h. denied _)
                λ h3. unchanged (record {
                  workflow = h1;
                  position = h2;
                  stage = named_stage x.requested_stage_id c.active_stage_id h3;
                })
