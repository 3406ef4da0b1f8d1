-- ===== src/Checkpoint/Store/Chain.antt =====
-- The chain of checkpoints that a history stands for.
use tsagent.Prelude.{
  String, ◌≡◌, refl, true, false, Option, none, some, List, [], ◌∷◌, ◌++◌, arith, eq_iff, ◌⊎◌, inl,
  inr, is_some,
}
use tsagent.Prelude.Int.{ℤ, pos, is_zero, increment, int_eq}
use tsagent.Prelude.Lists.{last, last-append}
use tsagent.Checkpoint.Contracts.{RunCheckpoint, parent_is}
use tsagent.Checkpoint.Store.{refusal}

-- `c` is the first of its chain, or the next behind the checkpoint given.
abbrev pub Follows : Option RunCheckpoint → RunCheckpoint → Type 0
Follows none c = (c.sequence_number ≡ pos 0) × (c.parent_checkpoint_id ≡ none)
Follows (some b) c =
    (c.sequence_number ≡ increment b.sequence_number)
    × (c.parent_checkpoint_id ≡ some b.checkpoint_id)

-- The identities of a history name checkpoints of one workflow of a Run, each behind the one
-- before; the last of them, if any, is the index.
pub data Chain (f : String → Option RunCheckpoint) (run workflow : String)
    : List String → Option RunCheckpoint → Type 0 where
  start : Chain f run workflow [] none
  grow :
      {ids : List String} {prev : Option RunCheckpoint} (c : RunCheckpoint)
      → Chain f run workflow ids prev
      → f c.checkpoint_id ≡ some c
      → c.run_id ≡ run
      → c.workflow_id ≡ workflow
      → Follows prev c
      → Chain f run workflow (ids ++ c.checkpoint_id ∷ []) (some c)

zero_of : (n : ℤ) → is_zero n ≡ true → n ≡ pos 0
zero_of n h = ground arith

equal_of : (m n : ℤ) → int_eq m n ≡ true → m ≡ n
equal_of m n h = ground arith

none_of {ℓ} : {A : Type ℓ} (o : Option A) → is_some o ≡ false → o ≡ none
none_of none h = refl
none_of (some a) h = cc

parent_of : (o : Option String) (id : String) → parent_is o id ≡ true → o ≡ some id
parent_of none id h = cc
parent_of (some p) id h = ground (arith, eq_iff p id)

-- What is not refused follows.
pub refusal-Follows :
    (prev : Option RunCheckpoint) (c : RunCheckpoint) → refusal prev c ≡ none → Follows prev c
unfolding refusal
refusal-Follows none c h =
    (zero_of c.sequence_number (ground arith), none_of c.parent_checkpoint_id (ground arith))
refusal-Follows (some b) c h = (
  equal_of c.sequence_number (increment b.sequence_number) (ground arith),
  parent_of c.parent_checkpoint_id b.checkpoint_id (ground arith),
)

module _ {f : String → Option RunCheckpoint} {run workflow : String} where
  -- A chain stays one when checkpoints are added under new identities.
  pub Chain-extend :
      (g : String → Option RunCheckpoint) {ids : List String} {o : Option RunCheckpoint}
      → ((id : String) (c : RunCheckpoint) → f id ≡ some c → g id ≡ some c)
      → Chain f run workflow ids o
      → Chain g run workflow ids o
  Chain-extend g k start = start
  Chain-extend g k (grow c l e r w n) = grow c (Chain-extend g k l) (k c.checkpoint_id c e) r w n

  -- The last identity names the index.
  pub Chain-last :
      {ids : List String} {o : Option RunCheckpoint}
      → Chain f run workflow ids o
      → ((ids ≡ []) × (o ≡ none))
        ⊎ ((c : RunCheckpoint) × (o ≡ some c)
            × (last ids ≡ some c.checkpoint_id)
            × (f c.checkpoint_id ≡ some c))
  Chain-last start = inl (refl, refl)
  Chain-last (grow {ids = ids} c l e r w n) = inr (c, refl, last-append ids c.checkpoint_id, e)
