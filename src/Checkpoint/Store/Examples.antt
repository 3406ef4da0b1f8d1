-- ===== src/Checkpoint/Store/Examples.antt =====
-- A store with two checkpoints of one chain, and the properties of the stores applied to it.
use tsagent.Prelude.{String, ◌≡◌, ◌≢◌, refl, none, some, List}
use tsagent.Prelude.Int.{pos, increment}
use tsagent.Prelude.Lists.{length, last}
use tsagent.Prelude.Result.{ok, err}
use tsagent.Checkpoint.Codes.{running}
use tsagent.Checkpoint.Contracts.{RunCheckpoint}
use tsagent.Checkpoint.Sample.{sample}
use tsagent.Checkpoint.Store.Consistency.{
  IsConsistent, save-IsConsistent, save-missing_key, save-keeps,
}
use tsagent.Checkpoint.Store.Idempotence.{save_again, save-latest, stage-save}
use tsagent.Checkpoint.Store.Reads.{
  Reached, fresh, saved, Reached-IsConsistent, latest_for_workflow_counts, history_total,
}
use tsagent.Checkpoint.Store.{
  InMemoryCheckpointStore, missing_key, empty_store, save, stage, latest, latest_for_workflow,
  history, insert, refusal,
}

abbrev digest : RunCheckpoint → String
digest c = c.checkpoint_id

abbrev next : RunCheckpoint
next = record sample {
  checkpoint_id = "c1";
  parent_checkpoint_id = some "c0";
  sequence_number = pos 1;
  status = running;
}

abbrev one : InMemoryCheckpointStore
one = (save digest empty_store sample).0

abbrev two : InMemoryCheckpointStore
two = (save digest one next).0

one-Reached : Reached digest one
one-Reached = saved sample fresh

two-Reached : Reached digest two
two-Reached = saved next one-Reached

one_has : one.checkpoints "c0" ≡ some sample
unfolding save insert refusal last
one_has = refl

next_new : one.checkpoints "c1" ≡ none
unfolding save insert refusal last
next_new = refl

next_saved : (save digest one next).1 ≡ ok next
unfolding save insert refusal last
next_saved = refl

two_latest : latest_for_workflow two "run" "wf" "" ≡ ok (some next)
unfolding latest_for_workflow save insert refusal last
two_latest = refl

save-IsConsistent_example : IsConsistent two
save-IsConsistent_example = save-IsConsistent digest one next (Reached-IsConsistent one-Reached)

save-missing_key_example : (save digest one next).1 ≢ err missing_key
save-missing_key_example = save-missing_key digest one next (Reached-IsConsistent one-Reached)

save-keeps_example : two.checkpoints "c0" ≡ some sample
save-keeps_example = save-keeps digest one next "c0" sample one_has

save_again_example : save digest two next ≡ (two, ok next)
save_again_example = save_again digest one next next next_saved

save-latest_example : latest two "run" ≡ ok (some next)
save-latest_example = save-latest digest one next next next_new next_saved

stage-save_example : stage digest one next ≡ save digest one next
stage-save_example = stage-save digest one next

latest_for_workflow_counts_example :
    (next.run_id ≡ "run")
    × (next.workflow_id ≡ "wf")
    × (increment next.sequence_number ≡ pos (length (two.workflow_history "run" "wf")))
latest_for_workflow_counts_example =
    latest_for_workflow_counts two-Reached "run" "wf" next two_latest

history_total_example :
    (cs : List RunCheckpoint) × (history two "run" ≡ ok cs)
    × (length cs ≡ length (two.run_history "run"))
history_total_example = history_total two-Reached "run"
