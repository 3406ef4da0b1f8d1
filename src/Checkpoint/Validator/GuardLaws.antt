-- ===== src/Checkpoint/Validator/GuardLaws.antt =====
-- What the external-state checks of the validator establish.
use mathlib.Core.List.{Memᴰ, append-nil, append_assoc}
use tsagent.Prelude.{
  String, ◌≡◌, ◌⊎◌, refl, sym, ◌∙◌, true, false, not, ◌&&◌, Option, some, none, List, [], ◌∷◌, ◌++◌,
  ◌==◌, arith, eq_iff, Bool-cases, inl, inr, map, not-false, if◌then◌else◌,
}
use tsagent.Prelude.Extends.{Extends-append}
use tsagent.Prelude.Lists.{All, select, All-select_none}
use tsagent.Prelude.Text.{is_empty}
use tsagent.Platform.{Platform}
use tsagent.Checkpoint.Codes.{GuardStatus, verified, external_state_unknown}
use tsagent.Checkpoint.Contracts.{RunCheckpoint, ExternalStateGuard, is_nil, is_nil-eq}
use tsagent.Checkpoint.Validator.Decisions.{continue, ask}
use tsagent.Checkpoint.Validator.Meaning.{CheckedAfter, is_fresh-CheckedAfter}
use tsagent.Checkpoint.Validator.Rules.{
  Evidence, Each, Passes, Passes-bind, Passes-map, Refuses, Each-if, Each-bind, Each-map, decides,
  goes_on, reject-Refuses, denied, asked, unchanged,
}
use tsagent.Checkpoint.Validator.Guards.{
  find_guard, has_guard, same_identity, index_guards, refuse_unexpected, unexpected_guards,
  is_fresh, is_mismatch, is_uncertain, compare_guard, check_guard, check_each, check_bound_guards,
  refuse_mismatch, uncertain_guards, uncertain_evidence, check_free_guards, check_external_state,
}

-- A current observation, among those given, that a guard of the checkpoint still holds.
pub record GuardHolds (p : Platform) (observed : List ExternalStateGuard) (e : ExternalStateGuard)
    : Type 0 where
  pub witness : ExternalStateGuard
  pub given : Memᴰ witness observed
  pub resource : witness.resource_id ≡ e.resource_id
  pub kind : witness.guard_type ≡ e.guard_type
  pub status : witness.status ≡ verified
  pub bound : is_empty e.expected_value ≡ false
  pub expected : witness.expected_value ≡ e.expected_value
  pub value : witness.observed_value ≡ e.expected_value
  pub current : CheckedAfter p witness.checked_at e.checked_at

find_guard-Memᴰ :
    (e : ExternalStateGuard) (os : List ExternalStateGuard) (o : ExternalStateGuard)
    → find_guard e os ≡ some o
    → Memᴰ o os × (same_identity e o ≡ true)
unfolding find_guard
find_guard-Memᴰ e [] o h = cc
find_guard-Memᴰ e (x ∷ xs) o h = elim (Bool-cases (same_identity e x)) [
  | inl hit ↦ let q : x ≡ o = cc (rw hit at h) in (Memᴰ.head (sym q), rw (← q) hit)
  | inr miss ↦ let (m, s) = find_guard-Memᴰ e xs o (rw miss at h) in (Memᴰ.tail m, s)
]

-- The guards that are indexed are those that were given.
index_guards-Each :
    (c : RunCheckpoint) (ev : Evidence) (seen gs : List ExternalStateGuard)
    → Each (Refuses c ev) (λ l. l ≡ seen ++ gs) (index_guards c ev seen gs)
unfolding index_guards
index_guards-Each c ev seen [] = goes_on (sym (append-nil seen))
index_guards-Each c ev seen (g ∷ gs) =
    Each-if (has_guard g seen) _ _ (λ h. decides (reject-Refuses c _ (Extends-append ev _)))
      (λ h.
        Each-map (λ d r. r) (λ l e. e ∙ append_assoc seen (g ∷ []) gs)
          (index_guards-Each c ev (seen ++ g ∷ []) gs))

identity :
    (g h : ExternalStateGuard)
    → same_identity g h ≡ true
    → (g.resource_id ≡ h.resource_id) × (g.guard_type ≡ h.guard_type)
identity g h s =
    ground (arith, eq_iff g.resource_id h.resource_id, eq_iff g.guard_type h.guard_type)

status-verified : (s : GuardStatus) → is_mismatch s ≡ false → is_uncertain s ≡ false → s ≡ verified
status-verified s h k = ground arith

same_text : (s t : String) → not (s == t) ≡ false → s ≡ t
same_text s t h = ground (arith, eq_iff s t)

compare_guard-Passes :
    (p : Platform) (c : RunCheckpoint) (ev : Evidence) (e o : ExternalStateGuard)
    (os : List ExternalStateGuard)
    → find_guard e os ≡ some o
    → Passes c ev (GuardHolds p os e) (compare_guard p c ev e o)
unfolding compare_guard
compare_guard-Passes p c ev e o os found =
    Each-if (is_mismatch o.status) _ _ (λ h. denied _)
      λ h1.
        Each-if (is_uncertain o.status) _ _ (λ h. asked _ refl)
          λ h2.
            Each-if (is_empty e.expected_value) _ _ (λ h. asked _ refl)
              λ h3.
                Each-if (not (o.expected_value == e.expected_value)) _ _ (λ h. denied _)
                  λ h4.
                    Each-if (not (is_fresh p o.checked_at e.checked_at)) _ _ (λ h. asked _ refl)
                      λ h5.
                        Each-if (not (o.observed_value == e.expected_value)) _ _ (λ h. denied _)
                          λ h6. goes_on (
                            Extends-append ev _,
                            record {
                              witness = o;
                              given = (find_guard-Memᴰ e os o found).0;
                              resource = sym (identity e o (find_guard-Memᴰ e os o found).1).0;
                              kind = sym (identity e o (find_guard-Memᴰ e os o found).1).1;
                              status = status-verified o.status h1 h2;
                              bound = h3;
                              expected = same_text _ _ h4;
                              value = same_text _ _ h6;
                              current =
                                  is_fresh-CheckedAfter p o.checked_at e.checked_at
                                    (not-false _ h5);
                            },
                          )

check_guard-Passes :
    (p : Platform) (c : RunCheckpoint) (ev : Evidence) (e : ExternalStateGuard)
    (os : List ExternalStateGuard) (o : Option ExternalStateGuard)
    → find_guard e os ≡ o
    → Passes c ev (GuardHolds p os e) (check_guard p c ev e o)
check_guard-Passes p c ev e os none found = asked _ refl
check_guard-Passes p c ev e os (some o) found = compare_guard-Passes p c ev e o os found

check_each-Passes :
    (p : Platform) (c : RunCheckpoint) (os es : List ExternalStateGuard) (ev : Evidence)
    → Passes c ev (All (GuardHolds p os) es) (check_each p c os es ev)
unfolding check_each
check_each-Passes p c os [] ev = unchanged tt
check_each-Passes p c os (e ∷ es) ev =
    Passes-bind _ (check_guard-Passes p c ev e os (find_guard e os) refl)
      (λ ev'. check_each-Passes p c os es ev')

refuse_unexpected-Passes :
    (c : RunCheckpoint) (ev : Evidence) (gs : List ExternalStateGuard)
    → Passes c ev (gs ≡ []) (refuse_unexpected c ev gs)
unfolding refuse_unexpected
refuse_unexpected-Passes c ev [] = unchanged refl
refuse_unexpected-Passes c ev (g ∷ gs) = denied _

-- The observations fit the guards of the checkpoint: each guard holds, and none is observed that
-- the checkpoint does not have.
pub record GuardsHold (p : Platform) (c : RunCheckpoint) (os : List ExternalStateGuard)
    : Type 0 where
  pub hold : All (GuardHolds p os) c.external_state_guards
  pub expected_only : unexpected_guards c.external_state_guards os ≡ []

check_bound_guards-Passes :
    (p : Platform) (c : RunCheckpoint) (os : List ExternalStateGuard) (ev : Evidence)
    → Passes c ev (GuardsHold p c os) (check_bound_guards p c os ev)
unfolding check_bound_guards
check_bound_guards-Passes p c os ev = Each-bind _ (index_guards-Each c ev [] os) λ l e. rw e (
    Passes-map (λ (u, h). record { hold = h; expected_only = u })
      (Passes-bind _ (refuse_unexpected-Passes c ev _)
        (λ ev'. check_each-Passes p c os c.external_state_guards ev')))

refuse_mismatch-Passes :
    (c : RunCheckpoint) (ev : Evidence) (gs : List ExternalStateGuard)
    → Passes c ev (All (λ g. is_mismatch g.status ≡ false) gs) (refuse_mismatch c ev gs)
unfolding refuse_mismatch
refuse_mismatch-Passes c ev [] = unchanged tt
refuse_mismatch-Passes c ev (g ∷ gs) =
    Each-if (is_mismatch g.status) _ _ (λ h. denied _)
      λ h. Passes-map (λ k. (h, k)) (refuse_mismatch-Passes c ev gs)

each_confirmed :
    (gs : List ExternalStateGuard)
    → All (λ g. is_mismatch g.status ≡ false) gs
    → All (λ g. is_uncertain g.status ≡ false) gs
    → All (λ g. g.status ≡ verified) gs
each_confirmed [] h k = tt
each_confirmed (g ∷ gs) h k = (status-verified g.status h.0 k.0, each_confirmed gs h.1 k.1)

uncertain_step :
    (c : RunCheckpoint) (gs : List ExternalStateGuard) (ev : Evidence)
    → Passes c ev (All (λ g. is_uncertain g.status ≡ false) gs) (
        if is_nil (uncertain_guards gs)
        then continue ev
        else ask c external_state_unknown
            (ev ++ map uncertain_evidence (uncertain_guards gs))
            "恢复所需的外部状态无法确认，请先确认资源状态后再继续。")
unfolding uncertain_guards
uncertain_step c gs ev =
    Each-if (is_nil (select (λ g. is_uncertain g.status) gs)) _ _
      (λ h. unchanged (All-select_none (λ g. is_uncertain g.status) gs (is_nil-eq _ h)))
      (λ h. asked _ refl)

check_free_guards-Passes :
    (c : RunCheckpoint) (gs : List ExternalStateGuard) (ev : Evidence)
    → Passes c ev (All (λ g. g.status ≡ verified) gs) (check_free_guards c gs ev)
unfolding check_free_guards
check_free_guards-Passes c gs ev =
    Passes-map (λ (h, k). each_confirmed gs h k)
      (Passes-bind _ (refuse_mismatch-Passes c ev gs) (uncertain_step c gs))

-- What holds of the outside world when the validator goes on: every guard of the checkpoint, and
-- every observation where the checkpoint has no guards.
abbrev pub ExternalStateHolds : Platform → RunCheckpoint → List ExternalStateGuard → Type 0
ExternalStateHolds p c os =
    GuardsHold p c os ⊎ ((c.external_state_guards ≡ []) × All (λ g. g.status ≡ verified) os)

pub check_external_state-Passes :
    (p : Platform) (c : RunCheckpoint) (os : List ExternalStateGuard) (ev : Evidence)
    → Passes c ev (ExternalStateHolds p c os) (check_external_state p c os ev)
unfolding check_external_state
check_external_state-Passes p c os ev =
    Each-if (not (is_nil c.external_state_guards) && is_nil os) _ _ (λ h. asked _ refl)
      λ h.
        Each-if (not (is_nil c.external_state_guards)) _ _
          (λ b. Passes-map inl (check_bound_guards-Passes p c os ev))
          (λ b.
            Passes-map (λ k. inr (is_nil-eq _ (not-false _ b), k))
              (check_free_guards-Passes c os ev))
