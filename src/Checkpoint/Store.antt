-- ===== src/Checkpoint/Store.antt =====
-- agent/checkpoint/store.py and agent/runtime_store/buffer.py: the append-only stores of checkpoints
-- that live in the process. A dictionary is a function; a history that is missing and an empty one
-- are the same list, since the code reads them by `get(key, [])` and `setdefault(key, [])` alone.
pub mod Chain
pub mod Consistency
pub mod Reads
pub mod Idempotence
mod Examples
use tsagent.Prelude.{
  String, ◌≡◌, Bool, true, false, not, ◌&&◌, ◌||◌, Option, none, some, List, [], ◌∷◌, ◌++◌, ◌==◌,
  is_some, if◌then◌else◌,
}
use tsagent.Prelude.Int.{is_zero, increment, int_eq}
use tsagent.Prelude.Lists.{last}
use tsagent.Prelude.Result.{Result, ok, err, ◌>>=◌}
use tsagent.Prelude.Text.{is_empty}
use tsagent.Checkpoint.Contracts.{RunCheckpoint, parent_is}

-- The exceptions of the stores; `missing_key` is the `KeyError` of `_checkpoints[...]`.
pub data StoreError : Type 0 where
  identity_collision first_of_chain wrong_parent wrong_sequence missing_key : StoreError

pub record InMemoryCheckpointStore : Type 0 where
  pub checkpoints : String → Option RunCheckpoint
  pub run_history : String → List String
  pub workflow_history : String → String → List String

abbrev pub empty_store : InMemoryCheckpointStore
empty_store = record {
  checkpoints = λ id. none;
  run_history = λ run. [];
  workflow_history = λ run workflow. [];
}

-- `_checkpoints[id]`
abbrev pub fetch : InMemoryCheckpointStore → String → Result StoreError RunCheckpoint
fetch s id = elim (s.checkpoints id) [ none ↦ err missing_key | some c ↦ ok c ]

-- the checkpoint of the last identity, if there is one
abbrev pub newest :
    InMemoryCheckpointStore → Option String → Result StoreError (Option RunCheckpoint)
newest s none = ok none
newest s (some id) = elim (s.checkpoints id) [ none ↦ err missing_key | some c ↦ ok (some c) ]

-- what a checkpoint must be behind the latest one of its workflow; `none` if it is
unfoldable pub refusal : Option RunCheckpoint → RunCheckpoint → Option StoreError
refusal none c =
    if not (is_zero c.sequence_number) || is_some c.parent_checkpoint_id
    then some first_of_chain
    else none
refusal (some latest) c =
    if not (parent_is c.parent_checkpoint_id latest.checkpoint_id)
    then some wrong_parent
    else if not (int_eq c.sequence_number (increment latest.sequence_number))
    then some wrong_sequence
    else none

-- the three assignments at the end of `save`
unfoldable pub insert : InMemoryCheckpointStore → RunCheckpoint → InMemoryCheckpointStore
insert s c = record {
  checkpoints = λ id. if c.checkpoint_id == id then some c else s.checkpoints id;
  run_history = λ run.
      if c.run_id == run then s.run_history run ++ c.checkpoint_id ∷ [] else s.run_history run;
  workflow_history = λ run workflow.
      if c.run_id == run && c.workflow_id == workflow
      then s.workflow_history run workflow ++ c.checkpoint_id ∷ []
      else s.workflow_history run workflow;
}

abbrev pub Saved : Type 0
Saved = InMemoryCheckpointStore × Result StoreError RunCheckpoint

abbrev pub append_new :
    InMemoryCheckpointStore → RunCheckpoint → Result StoreError (Option RunCheckpoint) → Saved
append_new s c (err e) = (s, err e)
append_new s c (ok prev) = elim (refusal prev c) [ some e ↦ (s, err e) | none ↦ (insert s c, ok c) ]

-- `InMemoryCheckpointStore.save`; `digest` is `checkpoint_digest`, a SHA-256 of the JSON text
unfoldable pub save : (RunCheckpoint → String) → InMemoryCheckpointStore → RunCheckpoint → Saved
save digest s c = elim (s.checkpoints c.checkpoint_id) [
  | some existing ↦ (s, if digest existing == digest c then ok existing else err identity_collision)
  | none ↦ append_new s c (newest s (last (s.workflow_history c.run_id c.workflow_id)))
]

-- The same part of the buffer, where the history is tested first.
unfoldable pub staged_refusal : Option RunCheckpoint → RunCheckpoint → Option StoreError
staged_refusal (some latest) c =
    if not (parent_is c.parent_checkpoint_id latest.checkpoint_id)
    then some wrong_parent
    else if not (int_eq c.sequence_number (increment latest.sequence_number))
    then some wrong_sequence
    else none
staged_refusal none c =
    if not (is_zero c.sequence_number) || is_some c.parent_checkpoint_id
    then some first_of_chain
    else none

abbrev pub stage_new :
    InMemoryCheckpointStore → RunCheckpoint → Result StoreError (Option RunCheckpoint) → Saved
stage_new s c (err e) = (s, err e)
stage_new s c (ok prev) = elim (staged_refusal prev c) [
  | none ↦ (insert s c, ok c)
  | some e ↦ (s, err e)
]

-- `CheckpointStagingBuffer.save`
unfoldable pub stage : (RunCheckpoint → String) → InMemoryCheckpointStore → RunCheckpoint → Saved
stage digest s c = elim (s.checkpoints c.checkpoint_id) [
  | none ↦ stage_new s c (newest s (last (s.workflow_history c.run_id c.workflow_id)))
  | some existing ↦ (s, if digest existing == digest c then ok existing else err identity_collision)
]

-- `get`
abbrev pub get : InMemoryCheckpointStore → String → Option RunCheckpoint
get s id = s.checkpoints id

-- `latest`
unfoldable pub latest : InMemoryCheckpointStore → String → Result StoreError (Option RunCheckpoint)
latest s run = newest s (last (s.run_history run))

-- the loop of `latest_for_workflow`, over the reversed history
unfoldable pub first_of_attempt :
    InMemoryCheckpointStore → String → List String → Result StoreError (Option RunCheckpoint)
first_of_attempt s attempt [] = ok none
first_of_attempt s attempt (id ∷ ids) =
    let rest = first_of_attempt s attempt ids in
    elim (s.checkpoints id) [
      | none ↦ err missing_key
      | some c ↦
          if is_empty attempt || c.activation_attempt_id == attempt then ok (some c) else rest
    ]

unfoldable pub reversed : List String → List String
reversed [] = []
reversed (x ∷ xs) = reversed xs ++ x ∷ []

-- `latest_for_workflow`
unfoldable pub latest_for_workflow :
    InMemoryCheckpointStore → String → String → String → Result StoreError (Option RunCheckpoint)
unfolding first_of_attempt reversed
latest_for_workflow s run workflow attempt =
    first_of_attempt s attempt (reversed (s.workflow_history run workflow))

unfoldable pub fetch_all :
    InMemoryCheckpointStore → List String → Result StoreError (List RunCheckpoint)
fetch_all s [] = ok []
fetch_all s (id ∷ ids) = let rest = fetch_all s ids in do c ← fetch s id; cs ← rest; ok (c ∷ cs)

-- `history`
unfoldable pub history : InMemoryCheckpointStore → String → Result StoreError (List RunCheckpoint)
unfolding fetch_all
history s run = fetch_all s (s.run_history run)
