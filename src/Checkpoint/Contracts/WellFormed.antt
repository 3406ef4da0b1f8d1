-- ===== src/Checkpoint/Contracts/WellFormed.antt =====
-- Well-formed checkpoints: what `RunCheckpoint.__post_init__` guarantees to everything behind it.
use mathlib.Core.Path.{subst}
use tsagent.Prelude.{
  String, ◌≡◌, refl, ap, ◌∙◌, Bool, true, false, not, ◌&&◌, List, [], ◌∷◌, map, arith, is_some,
  not-false, Option, none, some,
}
use tsagent.Prelude.Int.{is_negative, is_zero, is_positive}
use tsagent.Prelude.Lists.{select}
use tsagent.Prelude.Result.{ok, raise_if-eq-ok, ok-injective}
use tsagent.Prelude.Text.{is_blank}
use tsagent.Checkpoint.Json.{Fields, freeze_fields}
use tsagent.Checkpoint.Json.Snapshots.{FrozenFields, fields_hold_set}
use tsagent.Checkpoint.Json.Freeze.{freeze_fields-FrozenFields, freeze_fields_fixed}
use tsagent.Checkpoint.Contracts.Records.{RunCheckpoint}
use tsagent.Checkpoint.Contracts.Create.{
  tuple_strings, has_repeats, subset, missing_of, no_parent, parent_is, normalise, effect_keys,
  check_collections, with_plan, create, is_nil,
}

pub record WellFormed (c : RunCheckpoint) : Type 0 where
  pub identified : missing_of c ≡ []
  pub not_negative : is_negative c.sequence_number ≡ false
  pub initial_alone : (is_zero c.sequence_number && is_some c.parent_checkpoint_id) ≡ false
  pub later_linked : (is_positive c.sequence_number && no_parent c.parent_checkpoint_id) ≡ false
  pub not_own_parent : parent_is c.parent_checkpoint_id c.checkpoint_id ≡ false
  pub frozen : FrozenFields c.execution_plan
  pub stages_clean : tuple_strings c.completed_stage_ids ≡ c.completed_stage_ids
  pub tasks_clean : tuple_strings c.completed_task_ids ≡ c.completed_task_ids
  pub keys_clean : tuple_strings c.idempotency_keys ≡ c.idempotency_keys
  pub reasons_clean : tuple_strings c.invalidation_reasons ≡ c.invalidation_reasons
  pub stages_distinct : has_repeats c.completed_stage_ids ≡ false
  pub tasks_distinct : has_repeats c.completed_task_ids ≡ false
  pub keys_distinct : has_repeats c.idempotency_keys ≡ false
  pub effects_distinct : has_repeats (map (λ r. r.task_id) c.task_effect_records) ≡ false
  pub keys_registered : subset (effect_keys c.task_effect_records) c.idempotency_keys ≡ true

select_idem {ℓ} : {A : Type ℓ} (p : A → Bool) (xs : List A) → select p (select p xs) ≡ select p xs
unfolding select
select_idem p [] = refl
select_idem p (x ∷ xs) = ground (arith, select_idem p xs)

pub tuple_strings_idem : (xs : List String) → tuple_strings (tuple_strings xs) ≡ tuple_strings xs
unfolding tuple_strings
tuple_strings_idem xs = select_idem (λ s. not (is_blank s)) xs

is_nil-true {ℓ} : {A : Type ℓ} (xs : List A) → not (is_nil xs) ≡ false → xs ≡ []
is_nil-true [] h = refl
is_nil-true (x ∷ xs) h = cc

-- What the checks on the collections let pass, they return.
check_collections-WellFormed :
    (c : RunCheckpoint) (plan : Fields) {d : RunCheckpoint}
    → FrozenFields plan
    → missing_of c ≡ []
    → is_negative c.sequence_number ≡ false
    → (is_zero c.sequence_number && is_some c.parent_checkpoint_id) ≡ false
    → (is_positive c.sequence_number && no_parent c.parent_checkpoint_id) ≡ false
    → parent_is c.parent_checkpoint_id c.checkpoint_id ≡ false
    → check_collections (normalise c plan) ≡ ok d
    → WellFormed d
unfolding check_collections normalise missing_of
check_collections-WellFormed c plan {d} f m n i l o h =
    let (s, h1) = raise_if-eq-ok _ _ _ h in
    let (t, h2) = raise_if-eq-ok _ _ _ h1 in
    let (k, h3) = raise_if-eq-ok _ _ _ h2 in
    let (e, h4) = raise_if-eq-ok _ _ _ h3 in
    let (r, h5) = raise_if-eq-ok _ _ _ h4 in
    subst WellFormed (ok-injective h5) (record {
      identified = m;
      not_negative = n;
      initial_alone = i;
      later_linked = l;
      not_own_parent = o;
      frozen = f;
      stages_clean = tuple_strings_idem c.completed_stage_ids;
      tasks_clean = tuple_strings_idem c.completed_task_ids;
      keys_clean = tuple_strings_idem c.idempotency_keys;
      reasons_clean = tuple_strings_idem c.invalidation_reasons;
      stages_distinct = s;
      tasks_distinct = t;
      keys_distinct = k;
      effects_distinct = e;
      keys_registered = not-false _ r;
    })

-- The constructor went on behind a frozen plan.
with_plan-eq-ok :
    (c : RunCheckpoint) (m : Option Fields) {d : RunCheckpoint}
    → with_plan c m ≡ ok d
    → (plan : Fields) × (m ≡ some plan) × (check_collections (normalise c plan) ≡ ok d)
with_plan-eq-ok c none h = cc
with_plan-eq-ok c (some plan) h = (plan, refl, h)

-- Every checkpoint that the constructor returns is well-formed, whatever it was given.
pub create-WellFormed : (c : RunCheckpoint) {d : RunCheckpoint} → create c ≡ ok d → WellFormed d
unfolding create
create-WellFormed c h =
    let (m, h1) = raise_if-eq-ok _ _ _ h in
    let (n, h2) = raise_if-eq-ok _ _ _ h1 in
    let (i, h3) = raise_if-eq-ok _ _ _ h2 in
    let (l, h4) = raise_if-eq-ok _ _ _ h3 in
    let (o, h5) = raise_if-eq-ok _ _ _ h4 in
    let (plan, e, h6) = with_plan-eq-ok c (freeze_fields c.execution_plan) h5 in
    check_collections-WellFormed c plan (freeze_fields-FrozenFields c.execution_plan e)
      (is_nil-true _ m) n i l o h6

check_collections-eq-ok :
    (c : RunCheckpoint) {d : RunCheckpoint} → check_collections c ≡ ok d → d ≡ c
unfolding check_collections
check_collections-eq-ok c h = ground arith

create-with_plan :
    (c : RunCheckpoint) {d : RunCheckpoint}
    → create c ≡ ok d
    → with_plan c (freeze_fields c.execution_plan) ≡ ok d
unfolding create
create-with_plan c h = ground arith

-- What the constructor returns is its argument, normalised, with a plan that freezing made.
pub create-normalise :
    (c : RunCheckpoint) {d : RunCheckpoint}
    → create c ≡ ok d
    → (plan : Fields) × (freeze_fields c.execution_plan ≡ some plan) × (d ≡ normalise c plan)
create-normalise c h =
    let (plan, e, made) =
      with_plan-eq-ok c (freeze_fields c.execution_plan) (create-with_plan c h) in
    (plan, e, check_collections-eq-ok (normalise c plan) made)

-- A well-formed checkpoint has nothing left to normalise.
normalise_fixed : (c : RunCheckpoint) → WellFormed c → normalise c c.execution_plan ≡ c
unfolding normalise
normalise_fixed c w = λ i. record c {
  completed_stage_ids = w.stages_clean i;
  completed_task_ids = w.tasks_clean i;
  idempotency_keys = w.keys_clean i;
  invalidation_reasons = w.reasons_clean i;
}

check_collections_passed : (c : RunCheckpoint) → WellFormed c → check_collections c ≡ ok c
unfolding check_collections
check_collections_passed c w =
    rw (w.stages_distinct, w.tasks_distinct, w.keys_distinct, w.effects_distinct, w.keys_registered)

-- A checkpoint whose plan holds no set, at any depth, and that was built once, can be built again:
-- the constructor accepts every such well-formed checkpoint and returns it unchanged.
pub create_fixed :
    (c : RunCheckpoint) → WellFormed c → fields_hold_set c.execution_plan ≡ false → create c ≡ ok c
unfolding create
create_fixed c w plain =
    rw
      (
        w.identified,
        w.not_negative,
        w.initial_alone,
        w.later_linked,
        w.not_own_parent,
        freeze_fields_fixed c.execution_plan w.frozen plain,
      )
      (ap check_collections (normalise_fixed c w) ∙ check_collections_passed c w)
