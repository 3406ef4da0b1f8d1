-- ===== src/Checkpoint/Lifecycle/Chain.antt =====
-- A checkpoint that extends another one: the link between the two.
use tsagent.Prelude.{
  String, ◌≡◌, refl, ◌∙◌, Bool, true, false, Option, some, List, [], ◌∷◌, arith, ◌⊎◌,
}
use tsagent.Prelude.Int.{increment}
use tsagent.Prelude.Lists.{any}
use tsagent.Prelude.Result.{Result, ok, err}
use tsagent.Checkpoint.Codes.{CheckpointStatus, same_status}
use tsagent.Checkpoint.Contracts.{RunCheckpoint, ContractError, create, normalise}
use tsagent.Checkpoint.Contracts.WellFormed.{WellFormed, create-WellFormed, create-normalise}
use tsagent.Checkpoint.Lifecycle.{
  Change, is_identity, is_protected, apply_change, apply_changes, allowed_transition, extend,
  advance_checkpoint, append_checkpoint, target_of, lift_contract, extended,
}

-- The identity that a chain keeps.
pub record SameChain (c d : RunCheckpoint) : Type 0 where
  pub run_id : d.run_id ≡ c.run_id
  pub session_id : d.session_id ≡ c.session_id
  pub conversation_id : d.conversation_id ≡ c.conversation_id
  pub user_scope : d.user_scope ≡ c.user_scope
  pub workflow_id : d.workflow_id ≡ c.workflow_id
  pub workflow_version : d.workflow_version ≡ c.workflow_version
  pub plan_version : d.plan_version ≡ c.plan_version

pub record Link (c d : RunCheckpoint) (target : CheckpointStatus) (new_id at : String)
    : Type 0 where
  pub same : SameChain c d
  pub parent : d.parent_checkpoint_id ≡ some c.checkpoint_id
  pub sequence : d.sequence_number ≡ increment c.sequence_number
  pub identity : d.checkpoint_id ≡ new_id
  pub status : d.status ≡ target
  pub updated_at : d.updated_at ≡ at
  pub well_formed : WellFormed d

apply_change-SameChain :
    (c : RunCheckpoint) (x : Change) → is_identity x ≡ false → SameChain c (apply_change c x)
unfolding apply_change
apply_change-SameChain c x h = ground arith

SameChain-refl : (c : RunCheckpoint) → SameChain c c
SameChain-refl c = ground arith

SameChain-trans : {c d e : RunCheckpoint} → SameChain c d → SameChain d e → SameChain c e
SameChain-trans p q = record {
  run_id = q.run_id ∙ p.run_id;
  session_id = q.session_id ∙ p.session_id;
  conversation_id = q.conversation_id ∙ p.conversation_id;
  user_scope = q.user_scope ∙ p.user_scope;
  workflow_id = q.workflow_id ∙ p.workflow_id;
  workflow_version = q.workflow_version ∙ p.workflow_version;
  plan_version = q.plan_version ∙ p.plan_version;
}

any-cons-false {ℓ} :
    {A : Type ℓ} (p : A → Bool) (x : A) (xs : List A)
    → any p (x ∷ xs) ≡ false
    → (p x ≡ false) × (any p xs ≡ false)
unfolding any
any-cons-false p x xs h = ground arith

apply_changes-SameChain :
    (c : RunCheckpoint) (xs : List Change)
    → any is_identity xs ≡ false
    → SameChain c (apply_changes c xs)
unfolding apply_changes
apply_changes-SameChain c [] h = SameChain-refl c
apply_changes-SameChain c (x ∷ xs) h =
    let (p, q) = any-cons-false is_identity x xs h in
    SameChain-trans (apply_change-SameChain c x p) (apply_changes-SameChain (apply_change c x) xs q)

lift_contract-eq-ok :
    (r : Result ContractError RunCheckpoint) {d : RunCheckpoint} → lift_contract r ≡ ok d → r ≡ ok d
lift_contract-eq-ok (ok c) h = cc
lift_contract-eq-ok (err e) h = cc

-- the constructor leaves every field of the link alone
create-keeps :
    (c : RunCheckpoint) {d : RunCheckpoint}
    → create c ≡ ok d
    → SameChain c d
      × (d.parent_checkpoint_id ≡ c.parent_checkpoint_id)
      × (d.sequence_number ≡ c.sequence_number)
      × (d.checkpoint_id ≡ c.checkpoint_id)
      × (d.status ≡ c.status)
      × (d.updated_at ≡ c.updated_at)
unfolding normalise
create-keeps c h = let (plan, frozen, e) = create-normalise c h in ground (arith, e)

extend-create :
    (c : RunCheckpoint) (target : CheckpointStatus) (new_id at : String) (xs : List Change)
    {d : RunCheckpoint}
    → extend c target new_id at xs ≡ ok d
    → create (extended c target new_id at xs) ≡ ok d
unfolding extend
extend-create c target new_id at xs {d} h =
    ground (arith, lift_contract-eq-ok (create (extended c target new_id at xs)) {d = d})

extend-Link :
    (c : RunCheckpoint) (target : CheckpointStatus) (new_id at : String) (xs : List Change)
    {d : RunCheckpoint}
    → any is_identity xs ≡ false
    → extend c target new_id at xs ≡ ok d
    → Link c d target new_id at
extend-Link c target new_id at xs {d} safe h =
    let made = extend-create c target new_id at xs h in
    let kept = create-keeps (extended c target new_id at xs) made in
    record {
      same = same_of (apply_changes-SameChain c xs safe) kept.0;
      parent = kept.1;
      sequence = kept.2;
      identity = kept.3;
      status = kept.4;
      updated_at = kept.5;
      well_formed = create-WellFormed (extended c target new_id at xs) made;
    }
  where
    same_of :
        SameChain c (apply_changes c xs)
        → SameChain (extended c target new_id at xs) d
        → SameChain c d
    same_of p q = record {
      run_id = q.run_id ∙ p.run_id;
      session_id = q.session_id ∙ p.session_id;
      conversation_id = q.conversation_id ∙ p.conversation_id;
      user_scope = q.user_scope ∙ p.user_scope;
      workflow_id = q.workflow_id ∙ p.workflow_id;
      workflow_version = q.workflow_version ∙ p.workflow_version;
      plan_version = q.plan_version ∙ p.plan_version;
    }

is_protected-is_identity :
    (xs : List Change) → any is_protected xs ≡ false → any is_identity xs ≡ false
unfolding any
is_protected-is_identity [] h = refl
is_protected-is_identity (x ∷ xs) h = ground (arith, is_protected-is_identity xs)

advance_inverted :
    (c : RunCheckpoint) (target : CheckpointStatus) (new_id at : String) (xs : List Change)
    {d : RunCheckpoint}
    → advance_checkpoint c target new_id at xs ≡ ok d
    → (allowed_transition c.status target ≡ true)
      × (any is_protected xs ≡ false)
      × (extend c target new_id at xs ≡ ok d)
unfolding advance_checkpoint
advance_inverted c target new_id at xs h = ground arith

same_status-eq : (s t : CheckpointStatus) → same_status s t ≡ true → s ≡ t
same_status-eq s t h = ground arith

append_inverted :
    (c : RunCheckpoint) (given : Option CheckpointStatus) (new_id at : String) (xs : List Change)
    {d : RunCheckpoint}
    → append_checkpoint c given new_id at xs ≡ ok d
    → ((target_of given c ≡ c.status) ⊎ (allowed_transition c.status (target_of given c) ≡ true))
      × (any is_identity xs ≡ false)
      × (extend c (target_of given c) new_id at xs ≡ ok d)
unfolding append_checkpoint
append_inverted c given new_id at xs h = ground (arith, same_status-eq (target_of given c) c.status)

-- A checkpoint that `advance_checkpoint` returns is well-formed, is the next one behind its
-- parent with the same Run identity, and has the target status, which the table allows.
pub advance_checkpoint-Link :
    (c : RunCheckpoint) (target : CheckpointStatus) (new_id at : String) (xs : List Change)
    {d : RunCheckpoint}
    → advance_checkpoint c target new_id at xs ≡ ok d
    → Link c d target new_id at × (allowed_transition c.status target ≡ true)
advance_checkpoint-Link c target new_id at xs h =
    let (a, p, e) = advance_inverted c target new_id at xs h in
    (extend-Link c target new_id at xs (is_protected-is_identity xs p) e, a)

-- A checkpoint that `append_checkpoint` returns is linked to its parent in the same way; its
-- status is its parent's, or one that the table allows behind it.
pub append_checkpoint-Link :
    (c : RunCheckpoint) (given : Option CheckpointStatus) (new_id at : String) (xs : List Change)
    {d : RunCheckpoint}
    → append_checkpoint c given new_id at xs ≡ ok d
    → Link c d (target_of given c) new_id at
      × ((d.status ≡ c.status) ⊎ (allowed_transition c.status d.status ≡ true))
append_checkpoint-Link c given new_id at xs h =
    let (a, p, e) = append_inverted c given new_id at xs h in
    let l = extend-Link c (target_of given c) new_id at xs p e in (l, rw (l.status) a)
