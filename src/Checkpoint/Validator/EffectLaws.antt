-- ===== src/Checkpoint/Validator/EffectLaws.antt =====
-- What the side-effect checks of the validator establish.
use tsagent.Prelude.{
  String, ◌≡◌, refl, Bool, true, false, not, ◌&&◌, ◌||◌, Option, some, none, List, [], ◌∷◌, ◌==◌,
  arith, eq_iff, not-false, if◌then◌else◌,
}
use tsagent.Prelude.Lists.{All, All-select_none}
use tsagent.Prelude.Text.{is_empty, ◌<>◌}
use tsagent.Prelude.TextLaws.{append_seen}
use tsagent.Prelude.Extends.{Extends-append}
use tsagent.Platform.{Platform}
use tsagent.Checkpoint.Contracts.{
  RunCheckpoint, TaskEffectRecord, NoEffectConfirmation, is_nil, is_nil-eq,
}
use tsagent.Checkpoint.Validator.Meaning.{Settled, Later, All-Settled, timestamp_is_fresh-Later}
use tsagent.Checkpoint.Validator.Rules.{
  Evidence, Passes, Passes-map, Each-if, denied, asked, unchanged, goes_on,
}
use tsagent.Checkpoint.Validator.Effects.{
  is_unknown_effect, same_binding, unsafe_effects, timestamp_is_fresh, confirm_record,
  check_confirmation, unsafe_question, refuse_unsafe, settle_effects,
}

-- No effect of the checkpoint is left open.
abbrev pub AllSettled : RunCheckpoint → Type 0
AllSettled c = All (λ r. Settled r.effect_state) c.task_effect_records

-- The only open effect is the one of the active task, and the confirmation names it and is newer
-- than the checkpoint.
pub record Confirmed (p : Platform) (c : RunCheckpoint) (n : NoEffectConfirmation) : Type 0 where
  pub effect : TaskEffectRecord
  pub only_one : unsafe_effects c ≡ effect ∷ []
  pub active : effect.task_id ≡ c.active_task_id
  pub task : n.task_id ≡ effect.task_id
  pub key : n.idempotency_key ≡ effect.idempotency_key
  pub reference : n.external_reference ≡ effect.external_reference
  pub key_given : is_empty effect.idempotency_key ≡ false
  pub reference_given : is_empty effect.external_reference ≡ false
  pub newer : Later p c.updated_at n.checked_at

abbrev pub EffectsSettled : Platform → RunCheckpoint → Option NoEffectConfirmation → Type 0
EffectsSettled p c none = AllSettled c
EffectsSettled p c (some n) = Confirmed p c n

pub unsafe_effects_nil : (c : RunCheckpoint) → unsafe_effects c ≡ [] → AllSettled c
unfolding unsafe_effects
unsafe_effects_nil c h =
    All-Settled c.task_effect_records (All-select_none (λ r. is_unknown_effect r.effect_state) _ h)

question_seen_one :
    (b : Bool) (s t : String) (rest : String)
    → is_empty s ≡ false
    → is_empty t ≡ false
    → is_empty (if b then s <> rest else t) ≡ false
question_seen_one true s t rest h k = append_seen s rest h
question_seen_one false s t rest h k = k

question_seen : (rs : List TaskEffectRecord) → is_empty (unsafe_question rs) ≡ false
question_seen [] = refl
question_seen (r ∷ []) =
    question_seen_one (not (is_empty r.idempotency_key) && not (is_empty r.external_reference))
      "上一次副作用状态无法确认。请先在对应外部系统核实；若确认未发生，" _ _ refl refl
question_seen (r ∷ s ∷ rest) = refl

same_binding-eq :
    (r : TaskEffectRecord) (n : NoEffectConfirmation)
    → not (same_binding r n) ≡ false
    → (n.task_id ≡ r.task_id)
      × (n.idempotency_key ≡ r.idempotency_key)
      × (n.external_reference ≡ r.external_reference)
same_binding-eq r n h = ground (
  arith,
  eq_iff n.task_id r.task_id,
  eq_iff n.idempotency_key r.idempotency_key,
  eq_iff n.external_reference r.external_reference,
)

given_both : (a b : Bool) → (a || b) ≡ false → (a ≡ false) × (b ≡ false)
given_both a b h = ground arith

confirm_record-Passes :
    (p : Platform) (c : RunCheckpoint) (ev : Evidence) (r : TaskEffectRecord)
    (n : NoEffectConfirmation)
    → unsafe_effects c ≡ r ∷ []
    → r.task_id ≡ c.active_task_id
    → Passes c ev (Confirmed p c n) (confirm_record p c ev r n)
unfolding confirm_record
confirm_record-Passes p c ev r n only active =
    Each-if (is_empty r.idempotency_key || is_empty r.external_reference) _ _ (λ h. asked _ refl)
      λ h1.
        Each-if (not (same_binding r n)) _ _ (λ h. denied _)
          λ h2.
            Each-if (not (timestamp_is_fresh p n.checked_at c.updated_at)) _ _ (λ h. asked _ refl)
              λ h3. goes_on (
                Extends-append ev _,
                record {
                  effect = r;
                  only_one = only;
                  active = active;
                  task = (same_binding-eq r n h2).0;
                  key = (same_binding-eq r n h2).1;
                  reference = (same_binding-eq r n h2).2;
                  key_given = (given_both _ _ h1).0;
                  reference_given = (given_both _ _ h1).1;
                  newer = timestamp_is_fresh-Later p n.checked_at c.updated_at (not-false _ h3);
                },
              )

check_confirmation-Passes :
    (p : Platform) (c : RunCheckpoint) (ev : Evidence) (rs : List TaskEffectRecord)
    (n : NoEffectConfirmation)
    → unsafe_effects c ≡ rs
    → Passes c ev (Confirmed p c n) (check_confirmation p c ev rs n)
unfolding check_confirmation
check_confirmation-Passes p c ev [] n e = denied _
check_confirmation-Passes p c ev (r ∷ []) n e =
    Each-if (not (r.task_id == c.active_task_id)) _ _ (λ h. asked _ refl)
      λ h.
        confirm_record-Passes p c ev r n e ((eq_iff r.task_id c.active_task_id).0 (not-false _ h))
check_confirmation-Passes p c ev (r ∷ s ∷ rest) n e = asked _ refl

refuse_unsafe-Passes :
    (c : RunCheckpoint) (ev : Evidence) (rs : List TaskEffectRecord)
    → Passes c ev (rs ≡ []) (refuse_unsafe c ev rs)
unfolding refuse_unsafe
refuse_unsafe-Passes c ev rs =
    Each-if (is_nil rs) _ _ (λ h. unchanged (is_nil-eq rs h)) (λ h. asked _ (question_seen rs))

pub settle_effects-Passes :
    (p : Platform) (c : RunCheckpoint) (confirmation : Option NoEffectConfirmation) (ev : Evidence)
    → Passes c ev (EffectsSettled p c confirmation) (settle_effects p c confirmation ev)
unfolding settle_effects
settle_effects-Passes p c none ev =
    Passes-map (unsafe_effects_nil c) (refuse_unsafe-Passes c ev (unsafe_effects c))
settle_effects-Passes p c (some n) ev = check_confirmation-Passes p c ev (unsafe_effects c) n refl
