-- ===== src/Checkpoint/Validator/Effects.antt =====
-- The side effects of `validate_resume`: which uncertain effects stop a resume, and when a caller's
-- confirmation that an effect did not happen covers one.
use tsagent.Prelude.{
  String, Bool, true, false, not, ◌&&◌, ◌||◌, Option, none, some, List, [], ◌∷◌, map, ◌==◌, ltb,
  if◌then◌else◌,
}
use tsagent.Prelude.Lists.{any, select}
use tsagent.Prelude.Text.{◌<>◌, is_empty, join, contains, sorted_set}
use tsagent.Platform.{Platform, Timestamp}
use tsagent.Checkpoint.Codes.{
  SideEffectState, ResumeReasonCode, started, committed, failed_after_commit, undetermined,
  effect_value, unknown_side_effect, side_effect_in_progress, duplicate_side_effect,
}
use tsagent.Checkpoint.Contracts.{
  RunCheckpoint, TaskEffectRecord, NoEffectConfirmation, RuntimeEvidence, is_nil,
}
use tsagent.Checkpoint.Validator.Decisions.{Outcome, continue, noted, ask, deny}
use tsagent.Checkpoint.Validator.Guards.{read_time, replace_z}

abbrev Evidence : Type 0
Evidence = List RuntimeEvidence

-- `_UNKNOWN_EFFECTS`
abbrev pub is_unknown_effect : SideEffectState → Bool
is_unknown_effect undetermined = true
is_unknown_effect started = true
is_unknown_effect failed_after_commit = true
is_unknown_effect _ = false

-- `_REPLAY_BLOCKING_EFFECTS`
abbrev pub blocks_replay : SideEffectState → Bool
blocks_replay committed = true
blocks_replay state = is_unknown_effect state

abbrev pub is_committed : SideEffectState → Bool
is_committed committed = true
is_committed _ = false

abbrev pub is_undetermined : SideEffectState → Bool
is_undetermined undetermined = true
is_undetermined _ = false

abbrev pub is_in_progress : SideEffectState → Bool
is_in_progress started = true
is_in_progress failed_after_commit = true
is_in_progress _ = false

-- `committed_active_task`
unfoldable pub committed_active_task : RunCheckpoint → Bool
unfolding any contains
committed_active_task c =
    any
      (λ r.
        r.task_id == c.active_task_id
        && (is_committed r.effect_state && not (contains c.completed_task_ids r.task_id)))
      c.task_effect_records

-- the effects that stop a replay of the active task
unfoldable pub replay_blocking : RunCheckpoint → List TaskEffectRecord
unfolding select
replay_blocking c =
    select (λ r. r.task_id == c.active_task_id && blocks_replay r.effect_state)
      c.task_effect_records

-- the effects that are not settled
unfoldable pub unsafe_effects : RunCheckpoint → List TaskEffectRecord
unfolding select
unsafe_effects c = select (λ r. is_unknown_effect r.effect_state) c.task_effect_records

-- `",".join(sorted({record.effect_state.value ...}))`
unfoldable pub state_names : List TaskEffectRecord → String
unfolding join sorted_set
state_names records = join "," (sorted_set (map (λ r. effect_value r.effect_state) records))

unfoldable pub replay_reason : List TaskEffectRecord → ResumeReasonCode
unfolding any
replay_reason records =
    if any (λ r. is_undetermined r.effect_state) records
    then unknown_side_effect
    else duplicate_side_effect

unfoldable pub unsafe_reason : List TaskEffectRecord → ResumeReasonCode
unfolding any
unsafe_reason records =
    if any (λ r. is_in_progress r.effect_state) records
    then side_effect_in_progress
    else unknown_side_effect

-- the time of the confirmation lies behind that of the checkpoint, both with a time zone
abbrev pub both_aware_later : Option Timestamp → Option Timestamp → Bool
both_aware_later (some t) (some s) = t.aware && (s.aware && ltb s.instant t.instant)
both_aware_later _ _ = false

unfoldable pub timestamp_is_fresh : Platform → String → String → Bool
unfolding replace_z
timestamp_is_fresh p checked updated = both_aware_later (read_time p checked) (read_time p updated)

abbrev pub same_binding : TaskEffectRecord → NoEffectConfirmation → Bool
same_binding r n =
    n.task_id == r.task_id
    && (n.idempotency_key == r.idempotency_key && n.external_reference == r.external_reference)

-- The confirmation against the one uncertain effect `r`; the last value has the attestation.
unfoldable pub confirm_record :
    Platform → RunCheckpoint → Evidence → TaskEffectRecord → NoEffectConfirmation → Outcome Evidence
unfolding timestamp_is_fresh
confirm_record p c ev r n =
    if is_empty r.idempotency_key || is_empty r.external_reference
    then ask c unknown_side_effect
        (noted ev "no_effect_confirmation"
          "checkpoint effect with idempotency key and external reference"
          "effect binding is incomplete" "MISSING" r.task_id)
        "Checkpoint 缺少可绑定确认的幂等键或外部引用，不能安全续跑；请先通过原系统核实并补全副作用记录。"
    else if not (same_binding r n)
    then deny c unknown_side_effect (
        noted ev "no_effect_confirmation"
          (join "|" (r.task_id ∷ r.idempotency_key ∷ r.external_reference ∷ []))
          (join "|" (n.task_id ∷ n.idempotency_key ∷ n.external_reference ∷ [])) "MISMATCH" "")
    else if not (timestamp_is_fresh p n.checked_at c.updated_at)
    then ask c unknown_side_effect
        (noted ev "no_effect_confirmation" "timezone-aware checked_at after checkpoint.updated_at"
          n.checked_at "STALE_OR_INVALID" c.updated_at)
        "请先重新核验该副作用，并提交晚于当前 Checkpoint 的带时区 checked_at。"
    else continue (
        noted ev "no_effect_confirmation" "effect not committed" "caller confirmed no effect"
          "ATTESTED"
          ("task_id=" <> r.task_id <> ";idempotency_key=" <> r.idempotency_key
            <> ";external_reference=" <> r.external_reference <> ";checked_at=" <> n.checked_at))

-- the answer where several effects are open, or one of another task
abbrev pub too_many_effects : RunCheckpoint → Evidence → List TaskEffectRecord → Outcome Evidence
too_many_effects c ev records =
    ask c unknown_side_effect
      (noted ev "no_effect_confirmation"
        ("one uncertain effect for active task " <> c.active_task_id)
        (join "," (map (λ r. r.task_id) records)) "MISMATCH" "")
      "存在多个或非当前任务的未决副作用；本次确认无法覆盖它们，请先分别核对并处理。"

-- a confirmation was given; the list holds the uncertain effects
unfoldable pub check_confirmation :
    Platform
    → RunCheckpoint
    → Evidence
    → List TaskEffectRecord
    → NoEffectConfirmation
    → Outcome Evidence
unfolding confirm_record
check_confirmation p c ev [] n = deny c unknown_side_effect (
    noted ev "no_effect_confirmation" "one matching uncertain active task effect"
      "no uncertain effect" "MISMATCH" "")
check_confirmation p c ev (r ∷ []) n =
    if not (r.task_id == c.active_task_id)
    then too_many_effects c ev (r ∷ [])
    else confirm_record p c ev r n
check_confirmation p c ev (r ∷ s ∷ rest) n = too_many_effects c ev (r ∷ s ∷ rest)

-- the question that ends a resume with open effects and no confirmation
abbrev pub unsafe_question : List TaskEffectRecord → String
unsafe_question (r ∷ []) =
    if not (is_empty r.idempotency_key) && not (is_empty r.external_reference)
    then "上一次副作用状态无法确认。请先在对应外部系统核实；若确认未发生，" <> "可提交 no_effect_confirmation，绑定 task_id=" <> r.task_id
      <> "、" <> "idempotency_key=" <> r.idempotency_key <> "、" <> "external_reference="
      <> r.external_reference <> "，" <> "并提供晚于当前 Checkpoint 的带时区 checked_at。" <> "若效果已发生或仍不确定，请勿确认。"
    else "当前副作用记录缺少幂等键或外部引用，无法绑定安全确认；请先在原系统核实并补全记录。"
unsafe_question _ = "存在多个未决副作用，请先分别核实外部结果；未能确定每个副作用的状态前不要续跑。"

-- no confirmation was given: any open effect stops the resume
unfoldable pub refuse_unsafe : RunCheckpoint → Evidence → List TaskEffectRecord → Outcome Evidence
refuse_unsafe c ev records =
    if is_nil records
    then continue ev
    else ask c (unsafe_reason records)
        (noted ev "side_effect_resume_safety" "no unknown/in-progress effects" (state_names records)
          "UNKNOWN" "")
        (unsafe_question records)

unfoldable pub settle_effects :
    Platform → RunCheckpoint → Option NoEffectConfirmation → Evidence → Outcome Evidence
unfolding unsafe_effects check_confirmation refuse_unsafe
settle_effects p c none ev = refuse_unsafe c ev (unsafe_effects c)
settle_effects p c (some n) ev = check_confirmation p c ev (unsafe_effects c) n
