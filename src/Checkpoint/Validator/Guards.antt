-- ===== src/Checkpoint/Validator/Guards.antt =====
-- The external state of `validate_resume`: the guards of the checkpoint against fresh observations.
use Prim.Native.Nat.{Ordering}
use Prim.Native.Char.{code}
use Prim.Native.String.{compare}
use tsagent.Prelude.{
  String, Bool, true, false, not, ◌&&◌, Option, none, some, List, [], ◌∷◌, ◌++◌, map, ◌==◌, ltb,
  nat_eq, is_some, if◌then◌else◌,
}
use tsagent.Prelude.Lists.{select}
use tsagent.Prelude.Text.{◌<>◌, is_empty}
use tsagent.Platform.{Platform, Timestamp}
use tsagent.Checkpoint.Codes.{
  GuardStatus, unknown, mismatch, missing, guard_value, external_state_unknown,
  external_state_mismatch,
}
use tsagent.Checkpoint.Contracts.{
  RunCheckpoint, ResumeContext, ExternalStateGuard, RuntimeEvidence, is_nil,
}
use tsagent.Checkpoint.Validator.Decisions.{
  Outcome, continue, ◌>>=◌, validator_evidence, noted, ask, deny,
}

abbrev Evidence : Type 0
Evidence = List RuntimeEvidence

-- A guard's identity is its resource and its type.
abbrev pub same_identity : ExternalStateGuard → ExternalStateGuard → Bool
same_identity g h = g.resource_id == h.resource_id && g.guard_type == h.guard_type

-- f"{guard.guard_type}:{guard.resource_id}"
abbrev pub guard_name : ExternalStateGuard → String
guard_name g = g.guard_type <> ":" <> g.resource_id

-- The guards are keyed by identity: `find_guard` is `guards_by_identity.get(identity)`.
unfoldable pub find_guard : ExternalStateGuard → List ExternalStateGuard → Option ExternalStateGuard
find_guard g [] = none
find_guard g (h ∷ hs) = if same_identity g h then some h else find_guard g hs

abbrev pub has_guard : ExternalStateGuard → List ExternalStateGuard → Bool
has_guard g hs = is_some (find_guard g hs)

abbrev pub guard_evidence : Evidence → String → String → String → String → Evidence
guard_evidence ev expected observed status detail =
    noted ev "external_state_guard" expected observed status detail

-- The loop that fills `guards_by_identity`, which refuses a second observation.
unfoldable pub index_guards :
    RunCheckpoint
    → Evidence
    → List ExternalStateGuard
    → List ExternalStateGuard
    → Outcome (List ExternalStateGuard)
unfolding find_guard
index_guards c ev seen [] = continue seen
index_guards c ev seen (g ∷ gs) =
    let rest = index_guards c ev (seen ++ g ∷ []) gs in
    if has_guard g seen
    then deny c external_state_mismatch (
        guard_evidence ev "one observation per required resource and guard type"
          "duplicate observation" "MISMATCH" (guard_name g))
    else rest

-- the order of pairs of texts
abbrev identity_before : ExternalStateGuard → ExternalStateGuard → Bool
identity_before g h = elim (compare g.resource_id h.resource_id) [
  | Ordering.lt ↦ true
  | Ordering.gt ↦ false
  | Ordering.eq ↦ elim (compare g.guard_type h.guard_type) [ Ordering.lt ↦ true | _ ↦ false ]
]

-- `sorted(unexpected)[0]`
least : ExternalStateGuard → List ExternalStateGuard → ExternalStateGuard
least g [] = g
least g (h ∷ hs) = least (if identity_before h g then h else g) hs

-- no observation beyond the guards of the checkpoint
unfoldable pub refuse_unexpected :
    RunCheckpoint → Evidence → List ExternalStateGuard → Outcome Evidence
unfolding least
refuse_unexpected c ev [] = continue ev
refuse_unexpected c ev (g ∷ gs) = deny c external_state_mismatch (
    guard_evidence ev "checkpoint-bound resource and guard type" (guard_name (least g gs))
      "MISMATCH" "")

unfoldable pub unexpected_guards :
    List ExternalStateGuard → List ExternalStateGuard → List ExternalStateGuard
unfolding select find_guard
unexpected_guards required observed = select (λ g. not (has_guard g required)) observed

-- `text.replace("Z", "+00:00")`
unfoldable pub replace_z : String → String
replace_z String.[] = ""
replace_z (String.◌∷◌ c s) =
    let rest = replace_z s in if nat_eq (code c) b'Z' then "+00:00" <> rest else String.◌∷◌ c rest

-- `datetime.fromisoformat(text.replace("Z", "+00:00"))`
abbrev pub read_time : Platform → String → Option Timestamp
read_time p s = p.from_isoformat (replace_z s)

abbrev pub later_than : Option Timestamp → Timestamp → Bool
later_than none t = false
later_than (some s) t = s.aware && ltb s.instant t.instant

-- `current_is_fresh`, for the two texts `checked_at`; an unreadable one makes it false
abbrev pub fresh : Platform → Option Timestamp → String → Bool
fresh p none previous = false
fresh p (some t) previous =
    if is_empty previous then t.aware else t.aware && later_than (read_time p previous) t

unfoldable pub is_fresh : Platform → String → String → Bool
unfolding replace_z
is_fresh p checked previous = fresh p (read_time p checked) previous

abbrev pub is_mismatch : GuardStatus → Bool
is_mismatch mismatch = true
is_mismatch _ = false

abbrev pub is_uncertain : GuardStatus → Bool
is_uncertain unknown = true
is_uncertain missing = true
is_uncertain _ = false

abbrev pub or_missing : String → String
or_missing s = if is_empty s then "missing timestamp" else s

-- One round of the loop over the guards of the checkpoint: `e` is the expected guard, `o` the
-- observed one. The last value is the evidence that the guard holds.
unfoldable pub compare_guard :
    Platform → RunCheckpoint → Evidence → ExternalStateGuard → ExternalStateGuard → Outcome Evidence
compare_guard p c ev e o =
    if is_mismatch o.status
    then deny c external_state_mismatch
        (guard_evidence ev e.expected_value o.observed_value "MISMATCH" (guard_name e))
    else if is_uncertain o.status
    then ask c external_state_unknown
        (guard_evidence ev e.expected_value o.observed_value (guard_value o.status) (guard_name e))
        "恢复所需的外部状态无法确认，请先确认资源状态后再继续。"
    else if is_empty e.expected_value
    then ask c external_state_unknown
        (guard_evidence ev "checkpoint-bound expected value" "missing expected value" "MISSING"
          (guard_name e))
        "Checkpoint 没有足够的预期状态信息，请先补充明确的外部状态确认。"
    else if not (o.expected_value == e.expected_value)
    then deny c external_state_mismatch
        (guard_evidence ev e.expected_value o.expected_value "MISMATCH" (guard_name e))
    else if not (is_fresh p o.checked_at e.checked_at)
    then ask c external_state_unknown
        (guard_evidence ev "fresh timezone-aware observation after checkpoint"
          (or_missing o.checked_at) "UNKNOWN" (guard_name e))
        "恢复所需的外部状态证据缺失有效的新鲜检查时间。"
    else if not (o.observed_value == e.expected_value)
    then deny c external_state_mismatch
        (guard_evidence ev e.expected_value o.observed_value "MISMATCH" (guard_name e))
    else continue (
        guard_evidence ev e.expected_value o.observed_value "VERIFIED"
          (guard_name e <> ";checked_at=" <> o.checked_at))

abbrev pub check_guard :
    Platform
    → RunCheckpoint
    → Evidence
    → ExternalStateGuard
    → Option ExternalStateGuard
    → Outcome Evidence
check_guard p c ev e none =
    ask c external_state_unknown
      (guard_evidence ev e.expected_value "missing matching resource observation" "MISSING"
        (guard_name e))
      "恢复所需的外部状态尚未针对原资源重新确认。"
check_guard p c ev e (some o) = compare_guard p c ev e o

-- `for expected_guard in checkpoint.external_state_guards`
unfoldable pub check_each :
    Platform
    → RunCheckpoint
    → List ExternalStateGuard
    → List ExternalStateGuard
    → Evidence
    → Outcome Evidence
unfolding compare_guard find_guard
check_each p c observed [] ev = continue ev
check_each p c observed (e ∷ es) ev =
    check_guard p c ev e (find_guard e observed) >>= λ ev'. check_each p c observed es ev'

-- the branch for a checkpoint with guards
unfoldable pub check_bound_guards :
    Platform → RunCheckpoint → List ExternalStateGuard → Evidence → Outcome Evidence
unfolding index_guards refuse_unexpected unexpected_guards check_each
check_bound_guards p c guards ev = do
  observed ← index_guards c ev [] guards
  ev' ← refuse_unexpected c ev (unexpected_guards c.external_state_guards observed)
  check_each p c observed c.external_state_guards ev'

-- The branch for a checkpoint without guards: first any mismatch, and then the uncertain ones.
unfoldable pub refuse_mismatch :
    RunCheckpoint → Evidence → List ExternalStateGuard → Outcome Evidence
refuse_mismatch c ev [] = continue ev
refuse_mismatch c ev (g ∷ gs) =
    if is_mismatch g.status
    then deny c external_state_mismatch
        (guard_evidence ev g.expected_value g.observed_value "MISMATCH" (guard_name g))
    else refuse_mismatch c ev gs

abbrev pub uncertain_evidence : ExternalStateGuard → RuntimeEvidence
uncertain_evidence g =
    validator_evidence "external_state_guard" g.expected_value g.observed_value
      (guard_value g.status) (guard_name g)

unfoldable pub uncertain_guards : List ExternalStateGuard → List ExternalStateGuard
unfolding select
uncertain_guards guards = select (λ g. is_uncertain g.status) guards

unfoldable pub check_free_guards :
    RunCheckpoint → List ExternalStateGuard → Evidence → Outcome Evidence
unfolding refuse_mismatch uncertain_guards
check_free_guards c guards ev = do
  ev' ← refuse_mismatch c ev guards
  if is_nil (uncertain_guards guards)
      then continue ev'
      else ask c external_state_unknown (ev' ++ map uncertain_evidence (uncertain_guards guards))
          "恢复所需的外部状态无法确认，请先确认资源状态后再继续。"

-- the observations that count: those of the call, or else those of the context
abbrev pub observations : Option (List ExternalStateGuard) → ResumeContext → List ExternalStateGuard
observations none x = x.external_state_evidence
observations (some guards) x = guards

unfoldable pub check_external_state :
    Platform → RunCheckpoint → List ExternalStateGuard → Evidence → Outcome Evidence
check_external_state p c guards ev =
    if not (is_nil c.external_state_guards) && is_nil guards
    then ask c external_state_unknown
        (guard_evidence ev "fresh current guard evidence" "missing" "MISSING" "")
        "Checkpoint 依赖的外部状态尚未重新确认，请先完成状态校验。"
    else if not (is_nil c.external_state_guards)
    then check_bound_guards p c guards ev
    else check_free_guards c guards ev
