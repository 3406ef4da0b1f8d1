-- ===== src/Checkpoint/Examples.antt =====
-- The properties of checkpoints and their lifecycle, applied to the sample.
use tsagent.Prelude.{◌≡◌, ◌↔◌, refl, ◌⊎◌, true, some, none, List, [], ◌∷◌, if◌then◌else◌}
use tsagent.Prelude.Int.{pos}
use tsagent.Prelude.Lists.{any}
use tsagent.Prelude.Result.{ok, err}
use tsagent.Prelude.Text.{strip}
use tsagent.Checkpoint.Codes.{
  CheckpointStatus, completed, running, suspended, cancelled, is_terminal,
}
use tsagent.Checkpoint.Json.{
  Fields, freeze, freeze_fields, field, end, integer, null, text, set, frozen_set, cons, nil,
}
use tsagent.Checkpoint.Json.Snapshots.{FrozenFields, fields_hold_set, lookup}
use tsagent.Checkpoint.Json.Freeze.{freeze_fields_again}
use tsagent.Checkpoint.Contracts.{
  RunCheckpoint, create, check_collections, normalise, tuple_strings, has_repeats, missing_of,
  effect_keys, subset, not_json_like,
}
use tsagent.Checkpoint.Contracts.WellFormed.{WellFormed, create-WellFormed, create_fixed}
use tsagent.Checkpoint.Lifecycle.{
  advance_checkpoint, append_checkpoint, allowed_transition, extend, apply_changes, Change,
  target_summary,
}
use tsagent.Checkpoint.Lifecycle.Graph.{Reach, terminal_iff, reach_cancelled}
use tsagent.Checkpoint.Lifecycle.Chain.{Link, advance_checkpoint-Link, append_checkpoint-Link}
use tsagent.Checkpoint.Lifecycle.Progress.{SameFacts, advance_checkpoint_accepts}
use tsagent.Checkpoint.Sample.{sample}

-- A text with a space in front, and a plan whose keys are not sorted.
abbrev raw : RunCheckpoint
raw = record sample {
  execution_plan = field "b" null (field "a" (integer (pos 1)) end);
  idempotency_keys = " " ∷ "k1" ∷ [];
}

abbrev made : RunCheckpoint
made = record sample { execution_plan = field "a" (integer (pos 1)) (field "b" null end) }

raw_accepted : create raw ≡ ok made
unfolding create missing_of check_collections has_repeats normalise tuple_strings subset effect_keys
    freeze_fields
raw_accepted = refl

made-WellFormed : WellFormed made
made-WellFormed = create-WellFormed raw raw_accepted

create-WellFormed_example : WellFormed made
create-WellFormed_example = create-WellFormed raw raw_accepted

create_fixed_example : create made ≡ ok made
create_fixed_example = create_fixed made made-WellFormed (unfold fields_hold_set in refl)

-- a plan with a set, which is frozen once and not again
abbrev tagged : Fields
tagged = field "tags" (set (cons (text "x") nil)) end

abbrev frozen_tagged : Fields
frozen_tagged = field "tags" (frozen_set (cons (text "x") nil)) end

abbrev sets_apart : RunCheckpoint
sets_apart = record made { execution_plan = frozen_tagged }

-- A checkpoint whose plan holds a set is built once, and cannot be built again.
sets_once : create (record made { execution_plan = tagged }) ≡ ok sets_apart
unfolding create missing_of check_collections has_repeats normalise tuple_strings subset effect_keys
    freeze_fields
sets_once = refl

sets_not_twice : create sets_apart ≡ err not_json_like
unfolding create missing_of freeze_fields
sets_not_twice = refl

freeze_fields_again_example :
    FrozenFields frozen_tagged
    × (lookup "tags" frozen_tagged
        ≡ elim (lookup "tags" tagged) [ none ↦ none | some v ↦ freeze v ])
    × (freeze_fields frozen_tagged ≡ (if fields_hold_set tagged then none else some frozen_tagged))
unfolding freeze_fields
freeze_fields_again_example = freeze_fields_again tagged "tags" refl

abbrev changes : List Change
changes = target_summary "summary" ∷ []

abbrev advanced : RunCheckpoint
advanced = record made {
  checkpoint_id = "c1";
  parent_checkpoint_id = some "c0";
  sequence_number = pos 1;
  status = running;
  target_summary = "summary";
  updated_at = "later";
}

advanced_ok : advance_checkpoint made running "c1" "later" changes ≡ ok advanced
unfolding advance_checkpoint allowed_transition any extend strip create missing_of apply_changes
    check_collections has_repeats normalise tuple_strings subset effect_keys freeze_fields
advanced_ok = refl

advance_checkpoint-Link_example :
    Link made advanced running "c1" "later" × (allowed_transition suspended running ≡ true)
advance_checkpoint-Link_example =
    advance_checkpoint-Link made running "c1" "later" changes advanced_ok

abbrev appended : RunCheckpoint
appended = record advanced { status = suspended }

appended_ok : append_checkpoint made none "c1" "later" changes ≡ ok appended
unfolding append_checkpoint any extend strip create missing_of apply_changes check_collections
    has_repeats normalise tuple_strings subset effect_keys freeze_fields
appended_ok = refl

append_checkpoint-Link_example :
    Link made appended suspended "c1" "later"
    × ((suspended ≡ suspended) ⊎ (allowed_transition suspended suspended ≡ true))
append_checkpoint-Link_example = append_checkpoint-Link made none "c1" "later" changes appended_ok

advance_checkpoint_accepts_example :
    (d : RunCheckpoint) × (advance_checkpoint made running "c1" "later" [] ≡ ok d)
    × Link made d running "c1" "later"
    × SameFacts made d
unfolding allowed_transition strip fields_hold_set
advance_checkpoint_accepts_example =
    advance_checkpoint_accepts made running "c1" "later" made-WellFormed refl refl refl refl

terminal_iff_example :
    (is_terminal completed ≡ true) ↔ ((t : CheckpointStatus) → Reach completed t → t ≡ completed)
terminal_iff_example = terminal_iff completed

reach_cancelled_example : Reach running cancelled
reach_cancelled_example = reach_cancelled running refl
