-- ===== src/Checkpoint/Lifecycle/Progress.antt =====
-- When a checkpoint can be advanced, and what the step leaves as it was.
use tsagent.Prelude.{String, ◌≡◌, refl, ◌∙◌, true, false, [], ◌==◌, arith}
use tsagent.Prelude.Int.{ℤ, pos, negsuc, increment, is_negative, is_zero, is_positive}
use tsagent.Prelude.Lists.{any}
use tsagent.Prelude.Result.{ok}
use tsagent.Prelude.Text.{is_blank}
use tsagent.Prelude.TextLaws.{eq_sym, is_empty_of_not-is_blank}
use tsagent.Checkpoint.Codes.{CheckpointStatus}
use tsagent.Checkpoint.Contracts.{RunCheckpoint, missing_of}
use tsagent.Checkpoint.Contracts.WellFormed.{WellFormed, create_fixed}
use tsagent.Checkpoint.Json.Snapshots.{fields_hold_set}
use tsagent.Checkpoint.Lifecycle.Chain.{Link, advance_checkpoint-Link}
use tsagent.Checkpoint.Lifecycle.{
  allowed_transition, extend, extended, advance_checkpoint, apply_changes,
}

checkpoint_id_seen : (c : RunCheckpoint) → missing_of c ≡ [] → is_blank c.checkpoint_id ≡ false
unfolding missing_of
checkpoint_id_seen c h = ground arith

missing_of-extended :
    (c : RunCheckpoint) (target : CheckpointStatus) (new_id at : String)
    → missing_of c ≡ []
    → is_blank new_id ≡ false
    → missing_of (extended c target new_id at []) ≡ []
unfolding missing_of apply_changes
missing_of-extended c target new_id at h n = ground arith

successor_positive :
    (n : ℤ)
    → is_negative n ≡ false
    → (is_negative (increment n) ≡ false)
      × (is_zero (increment n) ≡ false)
      × (is_positive (increment n) ≡ true)
successor_positive (pos n) h = (refl, ground arith, refl)
successor_positive (negsuc n) h = cc

extended-WellFormed :
    (c : RunCheckpoint) (target : CheckpointStatus) (new_id at : String)
    → WellFormed c
    → is_blank new_id ≡ false
    → (new_id == c.checkpoint_id) ≡ false
    → WellFormed (extended c target new_id at [])
unfolding apply_changes
extended-WellFormed c target new_id at w seen fresh =
    let (n, z, p) = successor_positive c.sequence_number w.not_negative in
    record {
      identified = missing_of-extended c target new_id at w.identified seen;
      not_negative = n;
      initial_alone = rw z;
      later_linked =
          rw (p, is_empty_of_not-is_blank c.checkpoint_id (checkpoint_id_seen c w.identified));
      not_own_parent = eq_sym c.checkpoint_id new_id ∙ fresh;
      frozen = w.frozen;
      stages_clean = w.stages_clean;
      tasks_clean = w.tasks_clean;
      keys_clean = w.keys_clean;
      reasons_clean = w.reasons_clean;
      stages_distinct = w.stages_distinct;
      tasks_distinct = w.tasks_distinct;
      keys_distinct = w.keys_distinct;
      effects_distinct = w.effects_distinct;
      keys_registered = w.keys_registered;
    }

-- what a step leaves as it was, beside the identity of the chain
pub record SameFacts (c d : RunCheckpoint) : Type 0 where
  pub active : (d.active_stage_id ≡ c.active_stage_id) × (d.active_task_id ≡ c.active_task_id)
  pub execution_plan : d.execution_plan ≡ c.execution_plan
  pub completed_stages : d.completed_stage_ids ≡ c.completed_stage_ids
  pub completed_tasks : d.completed_task_ids ≡ c.completed_task_ids
  pub artifacts : d.artifacts ≡ c.artifacts
  pub effects : d.task_effect_records ≡ c.task_effect_records
  pub keys : d.idempotency_keys ≡ c.idempotency_keys
  pub guards : d.external_state_guards ≡ c.external_state_guards
  pub reasons : d.invalidation_reasons ≡ c.invalidation_reasons
  pub evidence : d.runtime_evidence ≡ c.runtime_evidence

-- From a well-formed checkpoint whose plan holds no set, at any depth, an allowed transition under a
-- new identity that is not blank always succeeds when nothing else is changed. It returns a
-- checkpoint that is linked to its parent: the next sequence number, the new identity, the target
-- status, the given time, the same chain. The position, the plan, the completed stages and
-- tasks, the artifacts, the effects and their keys, the guards, the reasons and the evidence are its
-- parent's.
pub advance_checkpoint_accepts :
    (c : RunCheckpoint) (target : CheckpointStatus) (new_id at : String)
    → WellFormed c
    → fields_hold_set c.execution_plan ≡ false
    → allowed_transition c.status target ≡ true
    → is_blank new_id ≡ false
    → (new_id == c.checkpoint_id) ≡ false
    → (d : RunCheckpoint) × (advance_checkpoint c target new_id at [] ≡ ok d)
      × Link c d target new_id at
      × SameFacts c d
unfolding advance_checkpoint any extend apply_changes
advance_checkpoint_accepts c target new_id at w plain allowed seen fresh =
    let d : RunCheckpoint = extended c target new_id at [] in
    let made = create_fixed d (extended-WellFormed c target new_id at w seen fresh) plain in
    let advanced : advance_checkpoint c target new_id at [] ≡ ok d = ground (arith, made) in
    (
      d,
      advanced,
      (advance_checkpoint-Link c target new_id at [] advanced).0,
      record {
        active = (refl, refl);
        execution_plan = refl;
        completed_stages = refl;
        completed_tasks = refl;
        artifacts = refl;
        effects = refl;
        keys = refl;
        guards = refl;
        reasons = refl;
        evidence = refl;
      },
    )
