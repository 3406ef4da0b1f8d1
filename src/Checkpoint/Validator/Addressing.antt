-- ===== src/Checkpoint/Validator/Addressing.antt =====
-- The first checks of `validate_resume`: which Run is meant, whether it may be resumed at all, and
-- with which permissions.
use tsagent.Prelude.{String, not, ◌&&◌, ◌||◌, List, [], ◌∷◌, ◌==◌, if◌then◌else◌}
use tsagent.Prelude.Lists.{select}
use tsagent.Prelude.Text.{is_empty, strip, replace_char, rstrip_by, join, contains, sorted_set}
use tsagent.Platform.{Platform}
use tsagent.Prelude.{nat_eq}
use tsagent.Checkpoint.Codes.{
  missing_context, ambiguous_run, no_run_match, target_conflict, terminal_checkpoint,
  checkpoint_invalidated, missing_permission, status_value, is_terminal,
}
use tsagent.Checkpoint.Contracts.{RunCheckpoint, ResumeContext, RuntimeEvidence, is_nil}
use tsagent.Checkpoint.Validator.Decisions.{Outcome, continue, noted, ask, deny}

abbrev Evidence : Type 0
Evidence = List RuntimeEvidence

-- `_target_key`
unfoldable pub target_key : Platform → String → String
unfolding strip replace_char rstrip_by
target_key p value =
    rstrip_by (λ c. nat_eq c b'/') (p.casefold (replace_char b'\\' "/" (strip value)))

unfoldable pub check_context : RunCheckpoint → ResumeContext → Evidence → Outcome Evidence
check_context c x ev =
    if is_empty x.workflow_id || is_empty x.workflow_version || is_empty x.plan_version
    then deny c missing_context (
        noted ev "current_context" "workflow_id/workflow_version/plan_version" "missing" "MISSING"
          "")
    else continue ev

unfoldable pub check_candidates : RunCheckpoint → List String → Evidence → Outcome Evidence
check_candidates c [] ev = continue ev
check_candidates c (run ∷ []) ev =
    if run == c.run_id
    then continue ev
    else deny c no_run_match (noted ev "run_addressing" c.run_id run "MISMATCH" "")
check_candidates c (run ∷ other ∷ rest) ev =
    ask c ambiguous_run
      (noted ev "run_addressing" "one candidate run" (join "," (run ∷ other ∷ rest)) "AMBIGUOUS" "")
      "存在多个可能的运行记录，请明确要恢复哪一个任务。"

unfoldable pub check_target : Platform → RunCheckpoint → ResumeContext → Evidence → Outcome Evidence
check_target p c x ev =
    if not (is_empty x.requested_target)
      && (not (is_empty c.target_summary)
          && not (target_key p x.requested_target == target_key p c.target_summary))
    then ask c target_conflict
        (noted ev "target_conflict" c.target_summary x.requested_target "CONFLICT" "")
        "当前输入与未完成 Run 的目标不一致，请明确要恢复旧任务还是开始新任务。"
    else continue ev

unfoldable pub check_status : RunCheckpoint → Evidence → Outcome Evidence
check_status c ev =
    if is_terminal c.status
    then deny c terminal_checkpoint
        (noted ev "checkpoint_status" "non-terminal" (status_value c.status) "REJECTED" "")
    else continue ev

unfoldable pub check_invalidation : RunCheckpoint → Evidence → Outcome Evidence
check_invalidation c ev =
    if is_nil c.invalidation_reasons
    then continue ev
    else deny c checkpoint_invalidated (
        noted ev "invalidation" "no invalidation reasons" (join ";" c.invalidation_reasons)
          "INVALID" "")

-- `sorted(set(required) - set(available))`
unfoldable pub missing_permissions : List String → List String → List String
unfolding sorted_set select contains
missing_permissions required available =
    sorted_set (select (λ r. not (contains available r)) required)

unfoldable pub check_permissions : RunCheckpoint → ResumeContext → Evidence → Outcome Evidence
unfolding missing_permissions
check_permissions c x ev =
    if is_nil (missing_permissions x.required_permissions x.available_permissions)
    then continue ev
    else deny c missing_permission (
        noted ev "permission_scope" (join "," x.required_permissions)
          (join "," x.available_permissions) "MISSING"
          (join "," (missing_permissions x.required_permissions x.available_permissions)))
