-- ===== src/Checkpoint/Validator/Rules.antt =====
-- How a property of a decision is carried through the steps of the validator.
use tsagent.Prelude.{String, ◌≡◌, refl, Bool, true, false, List, ◌++◌, is_some, if◌then◌else◌}
use tsagent.Prelude.Extends.{Extends, Extends-refl, Extends-append, Extends-trans}
use tsagent.Prelude.Text.{is_empty}
use tsagent.Checkpoint.Codes.{ResumeReasonCode, is_allow, is_clarification, is_waiting_user}
use tsagent.Checkpoint.Contracts.{RunCheckpoint, ResumeDecision, RuntimeEvidence, no_question}
use tsagent.Checkpoint.Validator.Decisions.{
  Outcome, decided, continue, ◌>>=◌, settled, resulting, clarify_with, reject_with, ask, deny,
}

-- A decision satisfies `P`, or the step goes on with a value that satisfies `Q`.
pub data Each {A : Type 0} (P : ResumeDecision → Type 0) (Q : A → Type 0) : Outcome A → Type 0 where
  decides : {d : ResumeDecision} → P d → Each P Q (decided d)
  goes_on : {a : A} → Q a → Each P Q (continue a)

module _ {A : Type 0} {P : ResumeDecision → Type 0} {Q : A → Type 0} where
  pub Each-if :
      (b : Bool) (m n : Outcome A)
      → (b ≡ true → Each P Q m)
      → (b ≡ false → Each P Q n)
      → Each P Q (if b then m else n)
  Each-if true m n p q = p refl
  Each-if false m n p q = q refl

  pub Each-map :
      {P' : ResumeDecision → Type 0} {Q' : A → Type 0} {m : Outcome A}
      → ((d : ResumeDecision) → P d → P' d)
      → ((a : A) → Q a → Q' a)
      → Each P Q m
      → Each P' Q' m
  Each-map f g (decides {d = d} h) = decides (f d h)
  Each-map f g (goes_on {a = a} h) = goes_on (g a h)

  pub Each-bind :
      {B : Type 0} {R : B → Type 0} {m : Outcome A} (f : A → Outcome B)
      → Each P Q m
      → ((a : A) → Q a → Each P R (f a))
      → Each P R (m >>= f)
  Each-bind f (decides h) k = decides h
  Each-bind f (goes_on {a = a} h) k = k a h

pub Each-settled :
    {P : ResumeDecision → Type 0} {m : Outcome ResumeDecision} → Each P P m → P (settled m)
Each-settled (decides h) = h
Each-settled (goes_on h) = h

abbrev pub Evidence : Type 0
Evidence = List RuntimeEvidence

-- What every decision about `c` satisfies, that was made with the evidence `ev` at hand.
pub record IsProper (c : RunCheckpoint) (ev : Evidence) (d : ResumeDecision) : Type 0 where
  pub of_run : d.run_id ≡ c.run_id
  pub of_checkpoint : d.checkpoint_id ≡ c.checkpoint_id
  pub paired : is_allow d.disposition ≡ is_some d.action
  pub waits : is_clarification d.disposition ≡ true → is_waiting_user d.resulting_status ≡ true
  pub asks : is_clarification d.disposition ≡ true → no_question d.clarification_question ≡ false
  pub status_of : d.resulting_status ≡ resulting c d.disposition d.action
  pub keeps_evidence : Extends ev d.evidence

-- The decision is proper, and does not allow.
pub record Refuses (c : RunCheckpoint) (ev : Evidence) (d : ResumeDecision) : Type 0 where
  pub proper : IsProper c ev d
  pub not_allowed : is_allow d.disposition ≡ false

module _ (c : RunCheckpoint) {ev ev' : Evidence} (reason : ResumeReasonCode)
    (kept : Extends ev ev') where
  pub reject-Refuses : Refuses c ev (reject_with c reason ev')
  reject-Refuses = record {
    proper = record {
      of_run = refl;
      of_checkpoint = refl;
      paired = refl;
      waits = λ h. cc;
      asks = λ h. cc;
      status_of = refl;
      keeps_evidence = kept;
    };
    not_allowed = refl;
  }

  pub clarify-Refuses :
      (question : String)
      → is_empty question ≡ false
      → Refuses c ev (clarify_with c reason ev' question)
  clarify-Refuses question h = record {
    proper = record {
      of_run = refl;
      of_checkpoint = refl;
      paired = refl;
      waits = λ _. refl;
      asks = λ _. h;
      status_of = refl;
      keeps_evidence = kept;
    };
    not_allowed = refl;
  }

-- A step of the validator: it refuses, or goes on with more evidence and a fact.
abbrev pub Passes : RunCheckpoint → Evidence → Type 0 → Outcome Evidence → Type 0
Passes c ev F m = Each (Refuses c ev) (λ ev'. Extends ev ev' × F) m

pub IsProper-weaken :
    {c : RunCheckpoint} {ev ev' : Evidence} {d : ResumeDecision}
    → Extends ev ev'
    → IsProper c ev' d
    → IsProper c ev d
IsProper-weaken e h = record {
  of_run = h.of_run;
  of_checkpoint = h.of_checkpoint;
  paired = h.paired;
  waits = h.waits;
  asks = h.asks;
  status_of = h.status_of;
  keeps_evidence = Extends-trans e h.keeps_evidence;
}

pub Refuses-weaken :
    {c : RunCheckpoint} {ev ev' : Evidence} {d : ResumeDecision}
    → Extends ev ev'
    → Refuses c ev' d
    → Refuses c ev d
Refuses-weaken e h = record { proper = IsProper-weaken e h.proper; not_allowed = h.not_allowed }

-- Two steps, one behind the other, establish both facts.
pub Passes-bind :
    {c : RunCheckpoint} {ev : Evidence} {F G : Type 0} {m : Outcome Evidence}
    (f : Evidence → Outcome Evidence)
    → Passes c ev F m
    → ((ev' : Evidence) → Passes c ev' G (f ev'))
    → Passes c ev (F × G) (m >>= f)
Passes-bind f p q = Each-bind f p λ ev' (e, x).
    Each-map (λ d h. Refuses-weaken e h) (λ ev'' (e', y). (Extends-trans e e', (x, y))) (q ev')

pub Passes-map :
    {c : RunCheckpoint} {ev : Evidence} {F G : Type 0} {m : Outcome Evidence}
    → (F → G)
    → Passes c ev F m
    → Passes c ev G m
Passes-map f p = Each-map (λ d h. h) (λ ev' (e, x). (e, f x)) p

-- A step that ends here, with more evidence behind `ev`.
module _ {c : RunCheckpoint} {ev : Evidence} {F : Type 0} {reason : ResumeReasonCode}
    (more : Evidence) where
  pub denied : Passes c ev F (deny c reason (ev ++ more))
  denied = decides (reject-Refuses c reason (Extends-append ev more))

  pub asked :
      {question : String}
      → is_empty question ≡ false
      → Passes c ev F (ask c reason (ev ++ more) question)
  asked {question} h = decides (clarify-Refuses c reason (Extends-append ev more) question h)

-- A step that goes on with the evidence that it was given.
pub unchanged : {c : RunCheckpoint} {ev : Evidence} {F : Type 0} → F → Passes c ev F (continue ev)
unchanged {ev = ev} x = goes_on (Extends-refl ev, x)

-- A step in front of the rest, where `P` holds of every refusal over the first evidence.
pub step-Each :
    {c : RunCheckpoint} {base ev : Evidence} {F : Type 0} {P : ResumeDecision → Type 0}
    {m : Outcome Evidence} (f : Evidence → Outcome ResumeDecision)
    → ((d : ResumeDecision) → Refuses c base d → P d)
    → Extends base ev
    → Passes c ev F m
    → ((ev' : Evidence) → Extends base ev' → F → Each P P (f ev'))
    → Each P P (m >>= f)
step-Each f refusal e pass rest =
    Each-bind f (Each-map (λ d h. refusal d (Refuses-weaken e h)) (λ ev' x. x) pass)
      λ ev' (e', x). rest ev' (Extends-trans e e') x
