-- ===== src/Checkpoint/Validator/AddressingLaws.antt =====
-- What the first checks of the validator establish.
use tsagent.Prelude.{
  String, ◌≡◌, ◌⊎◌, true, refl, Bool, true, false, not, ◌&&◌, ◌||◌, List, [], ◌∷◌, ◌==◌, arith,
  eq_iff,
}
use tsagent.Prelude.Lists.{All, select, All-select_nil}
use tsagent.Prelude.Text.{is_empty, contains, sorted_set, sorted_set-nil}
use tsagent.Platform.{Platform}
use tsagent.Checkpoint.Codes.{is_terminal}
use tsagent.Checkpoint.Contracts.{RunCheckpoint, ResumeContext, is_nil, is_nil-eq}
use tsagent.Checkpoint.Validator.Rules.{Evidence, Passes, Each-if, denied, asked, unchanged}
use tsagent.Checkpoint.Validator.Addressing.{
  target_key, check_context, check_candidates, check_target, check_status, check_invalidation,
  missing_permissions, check_permissions,
}

pub record HasContext (x : ResumeContext) : Type 0 where
  pub workflow : is_empty x.workflow_id ≡ false
  pub version : is_empty x.workflow_version ≡ false
  pub plan : is_empty x.plan_version ≡ false

-- At most one candidate, and that is the Run of the checkpoint.
abbrev pub Addressed : RunCheckpoint → List String → Type 0
Addressed c [] = Unit
Addressed c (run ∷ []) = run ≡ c.run_id
Addressed c (_ ∷ _ ∷ _) = ⊥

-- One of the two targets is not named, or both are the same one.
abbrev pub SameTarget : Platform → RunCheckpoint → ResumeContext → Type 0
SameTarget p c x =
    (is_empty x.requested_target ≡ true)
    ⊎ ((is_empty c.target_summary ≡ true)
        ⊎ (target_key p x.requested_target ≡ target_key p c.target_summary))

same_target :
    (a b : Bool) (s t : String)
    → (not a && (not b && not (s == t))) ≡ false
    → (a ≡ true) ⊎ ((b ≡ true) ⊎ (s ≡ t))
same_target a b s t h = ground (arith, eq_iff s t)

module _ (c : RunCheckpoint) (x : ResumeContext) (ev : Evidence) where
  pub check_context-Passes : Passes c ev (HasContext x) (check_context c x ev)
  unfolding check_context
  check_context-Passes =
      Each-if (is_empty x.workflow_id || is_empty x.workflow_version || is_empty x.plan_version) _ _
        (λ h. denied _) (λ h. unchanged (ground arith))

  pub check_candidates-Passes :
      (runs : List String) → Passes c ev (Addressed c runs) (check_candidates c runs ev)
  unfolding check_candidates
  check_candidates-Passes [] = unchanged tt
  check_candidates-Passes (run ∷ []) =
      Each-if (run == c.run_id) _ _ (λ h. unchanged ((eq_iff run c.run_id).0 h)) (λ h. denied _)
  check_candidates-Passes (run ∷ other ∷ rest) = asked _ refl

  pub check_target-Passes : (p : Platform) → Passes c ev (SameTarget p c x) (check_target p c x ev)
  unfolding check_target
  check_target-Passes p =
      Each-if
        (not (is_empty x.requested_target)
          && (not (is_empty c.target_summary)
              && not (target_key p x.requested_target == target_key p c.target_summary)))
        _ _ (λ h. asked _ refl) (λ h. unchanged (same_target _ _ _ _ h))

  pub check_status-Passes : Passes c ev (is_terminal c.status ≡ false) (check_status c ev)
  unfolding check_status
  check_status-Passes = Each-if (is_terminal c.status) _ _ (λ h. denied _) (λ h. unchanged h)

  pub check_invalidation-Passes :
      Passes c ev (c.invalidation_reasons ≡ []) (check_invalidation c ev)
  unfolding check_invalidation
  check_invalidation-Passes =
      Each-if (is_nil c.invalidation_reasons) _ _ (λ h. unchanged (is_nil-eq _ h)) (λ h. denied _)

  pub check_permissions-Passes :
      Passes c ev
        (All (λ r. contains x.available_permissions r ≡ true) x.required_permissions)
        (check_permissions c x ev)
  unfolding check_permissions missing_permissions
  check_permissions-Passes =
      Each-if
        (is_nil (
          sorted_set
            (select (λ r. not (contains x.available_permissions r)) x.required_permissions)))
        _ _
        (λ h. unchanged (
          All-select_nil (contains x.available_permissions) x.required_permissions
            (sorted_set-nil _ (is_nil-eq _ h))))
        (λ h. denied _)
