-- ===== src/Checkpoint/Validator/ActionLaws.antt =====
-- The last part of the validator: which action it allows, and under which facts.
use mathlib.Core.Path.{subst}
use tsagent.Prelude.{
  String, ◌≡◌, ◌≢◌, refl, ◌⊎◌, inl, inr, Bool, true, false, not, ◌&&◌, Option, some, none, [],
  if◌then◌else◌, not-false, ◌==◌,
}
use tsagent.Prelude.Extends.{Extends, Extends-refl, Extends-append}
use tsagent.Prelude.Lists.{All, All-select_none}
use tsagent.Platform.{Platform}
use tsagent.Checkpoint.Codes.{
  ResumeAction, ResumeReasonCode, is_allow, resume_exact, replay_from_stage, replan_from_checkpoint,
  abandon_and_restart,
}
use tsagent.Checkpoint.Contracts.{
  RunCheckpoint, ResumeContext, ResumeDecision, NoEffectConfirmation, is_nil, is_nil-eq,
}
use tsagent.Checkpoint.Compatibility.{CompatibilityAssessment}
use tsagent.Checkpoint.Validator.Meaning.{Absent, All-Absent}
use tsagent.Checkpoint.Validator.Rules.{
  Evidence, IsProper, Refuses, Each-bind, Each-map, Each-settled, goes_on, reject-Refuses,
  clarify-Refuses,
}
use tsagent.Checkpoint.Validator.Effects.{blocks_replay, replay_blocking, unsafe_effects}
use tsagent.Checkpoint.Validator.EffectLaws.{
  AllSettled, EffectsSettled, unsafe_effects_nil, settle_effects-Passes,
}
use tsagent.Checkpoint.Validator.{
  allowed_decision, decide_replay, decide_replan, decide_chosen, decide_action, chosen, is_exact,
  is_abandon,
}

-- A replay was asked for, of an idempotent stage, and no effect of the active task stands in its way.
pub record SafeReplay (c : RunCheckpoint) (x : ResumeContext) (a : CompatibilityAssessment)
    : Type 0 where
  pub requested : x.requested_action ≡ some replay_from_stage
  pub allowed : a.replay_allowed ≡ true
  pub idempotent : x.stage_idempotent ≡ true
  pub unblocked :
      All (λ r. (r.task_id ≢ c.active_task_id) ⊎ Absent r.effect_state) c.task_effect_records

-- A new plan was asked for, or is all that the versions allow, and every effect is settled.
pub record SafeReplan (c : RunCheckpoint) (x : ResumeContext) (a : CompatibilityAssessment)
    : Type 0 where
  pub requested : (x.requested_action ≡ some replan_from_checkpoint) ⊎ (x.requested_action ≡ none)
  pub allowed : a.replan_allowed ≡ true
  pub settled : AllSettled c

-- An exact resume fits the versions, and every effect is settled or confirmed.
pub record SafeExact (p : Platform) (c : RunCheckpoint) (x : ResumeContext)
    (a : CompatibilityAssessment) (confirmation : Option NoEffectConfirmation) : Type 0 where
  pub requested : (x.requested_action ≡ some resume_exact) ⊎ (x.requested_action ≡ none)
  pub allowed : a.exact_allowed ≡ true
  pub settled : EffectsSettled p c confirmation

abbrev pub ActionSafe :
    Platform
    → RunCheckpoint
    → ResumeContext
    → CompatibilityAssessment
    → Option NoEffectConfirmation
    → Option ResumeAction
    → Type 0
ActionSafe p c x a n none = ⊥
ActionSafe p c x a n (some abandon_and_restart) = x.requested_action ≡ some abandon_and_restart
ActionSafe p c x a n (some replay_from_stage) = SafeReplay c x a
ActionSafe p c x a n (some replan_from_checkpoint) = SafeReplan c x a
ActionSafe p c x a n (some resume_exact) = SafeExact p c x a n

-- A decision over the evidence `ev`: proper, and safe if it allows.
pub record SafeDecision (p : Platform) (c : RunCheckpoint) (x : ResumeContext)
    (a : CompatibilityAssessment) (n : Option NoEffectConfirmation) (ev : Evidence)
    (d : ResumeDecision) : Type 0 where
  pub proper : IsProper c ev d
  pub safe : is_allow d.disposition ≡ true → ActionSafe p c x a n d.action

pub allowed-IsProper :
    (c : RunCheckpoint) (action : ResumeAction) (reason : ResumeReasonCode) {ev ev' : Evidence}
    (stage task : Option String)
    → Extends ev ev'
    → IsProper c ev (allowed_decision c action reason ev' stage task)
allowed-IsProper c action reason stage task e = record {
  of_run = refl;
  of_checkpoint = refl;
  paired = refl;
  waits = λ h. cc;
  asks = λ h. cc;
  status_of = refl;
  keeps_evidence = e;
}

replay_clear :
    (c : RunCheckpoint)
    → replay_blocking c ≡ []
    → All (λ r. (r.task_id ≢ c.active_task_id) ⊎ Absent r.effect_state) c.task_effect_records
unfolding replay_blocking
replay_clear c h =
    All-Absent c.active_task_id c.task_effect_records
      (All-select_none (λ r. r.task_id == c.active_task_id && blocks_replay r.effect_state) _ h)

module _ (p : Platform) (c : RunCheckpoint) (x : ResumeContext) (a : CompatibilityAssessment)
    (n : Option NoEffectConfirmation) where
  pub Refuses-SafeDecision :
      {ev : Evidence} (d : ResumeDecision) → Refuses c ev d → SafeDecision p c x a n ev d
  Refuses-SafeDecision d r = record { proper = r.proper; safe = λ h. cc (r.not_allowed) }

  refuse_if :
      {ev : Evidence} (b : Bool) {d e : ResumeDecision}
      → (b ≡ true → Refuses c ev d)
      → (b ≡ false → SafeDecision p c x a n ev e)
      → SafeDecision p c x a n ev (if b then d else e)
  refuse_if true {d} r s = Refuses-SafeDecision d (r refl)
  refuse_if false r s = s refl

  decide_replay-SafeDecision :
      (ev : Evidence)
      → x.requested_action ≡ some replay_from_stage
      → SafeDecision p c x a n ev (decide_replay c x a ev)
  unfolding decide_replay
  decide_replay-SafeDecision ev asked_for =
      refuse_if (not a.replay_allowed) (λ h. reject-Refuses c _ (Extends-refl ev))
        λ h1.
          refuse_if (not x.stage_idempotent) (λ h. reject-Refuses c _ (Extends-append ev _))
            λ h2.
              refuse_if (not (is_nil (replay_blocking c)))
                (λ h. reject-Refuses c _ (Extends-append ev _))
                λ h3. record {
                  proper = allowed-IsProper c replay_from_stage _ _ _ (Extends-refl ev);
                  safe = λ _. record {
                    requested = asked_for;
                    allowed = not-false _ h1;
                    idempotent = not-false _ h2;
                    unblocked = replay_clear c (is_nil-eq _ (not-false _ h3));
                  };
                }

  decide_replan-SafeDecision :
      (ev : Evidence)
      → x.requested_action ≡ some replan_from_checkpoint
      → SafeDecision p c x a n ev (decide_replan c a ev)
  unfolding decide_replan
  decide_replan-SafeDecision ev asked_for =
      refuse_if (not a.replan_allowed) (λ h. reject-Refuses c _ (Extends-refl ev))
        λ h1.
          refuse_if (not (is_nil (unsafe_effects c)))
            (λ h. clarify-Refuses c _ (Extends-append ev _) _ refl)
            λ h2. record {
              proper = allowed-IsProper c replan_from_checkpoint _ _ _ (Extends-refl ev);
              safe = λ _. record {
                requested = inl asked_for;
                allowed = not-false _ h1;
                settled = unsafe_effects_nil c (is_nil-eq _ (not-false _ h2));
              };
            }

  decide_chosen-SafeDecision :
      (ev : Evidence) (action : ResumeAction)
      → (EffectsSettled p c n → ActionSafe p c x a n (some action))
      → SafeDecision p c x a n ev (decide_chosen p c n action ev)
  unfolding decide_chosen
  decide_chosen-SafeDecision ev action good = Each-settled (
      Each-bind _
        (Each-map (λ d r. Refuses-SafeDecision d r) (λ ev' k. k) (settle_effects-Passes p c n ev))
        λ ev' (e, settled).
          goes_on (record { proper = allowed-IsProper c action _ _ _ e; safe = λ _. good settled }))

  settled_alone : n ≡ none → EffectsSettled p c n → AllSettled c
  settled_alone e s = subst (λ k. EffectsSettled p c k) e s

  unspecified :
      (ev : Evidence) (b : Bool)
      → a.exact_allowed ≡ b
      → x.requested_action ≡ none
      → n ≡ none
      → (not b && not a.replan_allowed) ≡ false
      → SafeDecision p c x a n ev (decide_chosen p c n (chosen b) ev)
  unspecified ev true e asked_for alone h =
      decide_chosen-SafeDecision ev resume_exact
        λ s. record { requested = inr asked_for; allowed = e; settled = s }
  unspecified ev false e asked_for alone h =
      decide_chosen-SafeDecision ev replan_from_checkpoint λ s. record {
        requested = inr asked_for;
        allowed = not-false _ h;
        settled = settled_alone alone s;
      }

  pub decide_action-SafeDecision :
      (ev : Evidence) (requested : Option ResumeAction)
      → x.requested_action ≡ requested
      → is_abandon requested ≡ false
      → (is_exact requested ≡ false → n ≡ none)
      → SafeDecision p c x a n ev (decide_action p c x a n ev requested)
  unfolding decide_action
  decide_action-SafeDecision ev (some replay_from_stage) e b k = decide_replay-SafeDecision ev e
  decide_action-SafeDecision ev (some replan_from_checkpoint) e b k =
      decide_replan-SafeDecision ev e
  decide_action-SafeDecision ev (some resume_exact) e b k =
      refuse_if (not a.exact_allowed) (λ h. reject-Refuses c _ (Extends-refl ev))
        λ h.
          decide_chosen-SafeDecision ev resume_exact
            λ s. record { requested = inl e; allowed = not-false _ h; settled = s }
  decide_action-SafeDecision ev (some abandon_and_restart) e b k = cc
  decide_action-SafeDecision ev none e b k =
      refuse_if (not a.exact_allowed && not a.replan_allowed)
        (λ h. reject-Refuses c _ (Extends-refl ev))
        λ h. unspecified ev a.exact_allowed refl e (k refl) h
