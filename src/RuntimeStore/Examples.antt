-- ===== src/RuntimeStore/Examples.antt =====
-- Two workers at one store: a Run, its revisions and events, a fence taken over, and a session whose
-- first worker is lost; and the properties of the store applied to them.
use tsagent.RuntimeStore.Logs.Liveness.{MovedOn, append_revision-goes_through}
use tsagent.Prelude.{some}
use tsagent.Prelude.{◌≤◌}
use tsagent.Prelude.{ℕ, String, ◌≡◌, refl, true, false, none, List, [], ◌∷◌, inl, arith, map}
use tsagent.Prelude.Int.{pos}
use tsagent.Prelude.Text.{strip, ◌<>◌, contains, is_space, lstrip_by, rstrip_by}
use tsagent.Prelude.Lists.{any, select}
use tsagent.Prelude.Result.{ok}
use tsagent.Checkpoint.Json.{object, end}
use tsagent.RuntimeStore.Tables.{
  RunHead, head_of, Host, SqliteRuntimeStore, FenceGrant, RevisionRecord,
}
use tsagent.RuntimeStore.Sql.{fetch_one, update_where, count_where, greatest, insert_by, order_by}
use tsagent.RuntimeStore.Transaction.{
  require_text, require_optional, canonical_json, check_generation, require_writer,
  write_transaction, transact, fetch_head, is_json, are_json, are_json_fields,
}
use tsagent.RuntimeStore.Events.{
  EventCall, is_same_event, is_closed_to, store_event, append_event_tx, event_draft, append_event,
}
use tsagent.RuntimeStore.Leases.{
  put_worker_lease, converge_orphaned_run, is_alive, converge_rows, assert_session_run_available,
  renew_worker_lease_tx, owner_renewal_tx, renew_worker_lease,
}
use tsagent.RuntimeStore.Fences.{
  initialize_run_tx, initialize_run, insert_fence, grant_fence, acquire_fence_tx, acquire_fence,
}
use tsagent.RuntimeStore.Handover.{
  standing, takeover_fence_tx, takeover_fence, release_fence_tx, release_fence,
}
use tsagent.RuntimeStore.Revisions.{
  RevisionCall, validate_write_head, revision_draft, append_revision_tx, append_revision,
}
use tsagent.RuntimeStore.Artifacts.{insert_run_output, insert_artifact_facts, record_artifact}
use tsagent.RuntimeStore.Transitions.{
  TransitionCall, expected_events, allowed_targets, transition_refusal, transition_draft,
  apply_transition, transition_tx, transition_run_with_event,
}
use tsagent.RuntimeStore.EventReads.{read_events, order_by_number, insert_by_number}
use tsagent.RuntimeStore.EventReads.Cursor.{Complete, as_int, read_events-Complete}
use tsagent.RuntimeStore.Logs.EventLogs.{latest_sequence_of}
use tsagent.RuntimeStore.Calls.{
  Call, initializing, acquiring, taking_over, appending_revision, appending_event, fresh_store,
  perform, run_calls,
}
use tsagent.RuntimeStore.Ownership.{Move, Lost}
use tsagent.RuntimeStore.Ownership.Refinement.{owner, perform-Move}
use tsagent.RuntimeStore.Ownership.Safety.{Refused, run_calls-Refused}
use tsagent.RuntimeStore.Logs.EventLogs.{HasLogs}
use tsagent.RuntimeStore.Logs.Events.{run_calls-HasLogs, fresh-HasLogs}
use tsagent.RuntimeStore.Logs.Chains.{HasChains}
use tsagent.RuntimeStore.Logs.Revisions.{run_calls-HasChains, fresh-HasChains}
use tsagent.RuntimeStore.Admission.Exclusive.{
  HasSessionAlone, acquire_fence-alone, takeover_fence-alone,
}

-- The surroundings at a time, with leases that end at another one
abbrev at : String → String → Host
at now expiry = record {
  now = λ reading. now;
  lease_expiry = expiry;
  lease_grace = now;
  busy = false;
  sha256 = λ s. "sha:" <> s;
  dumps = λ j. "{}";
  upper = λ s. s;
  str_of = λ n. "0";
}

abbrev early : Host
early = at "2026-01-01T00:00:00Z" "2026-01-01T00:00:45Z"

abbrev late : Host
late = at "2026-01-01T00:02:00Z" "2026-01-01T00:02:45Z"

abbrev revision_call : RevisionCall
revision_call = record {
  tenant_id = "t";
  session_id = "s";
  run_id = "r1";
  request_id = "q";
  payload = object end;
  writer_id = "w1";
  fence_token = pos 1;
  expected_revision = pos 0;
  expected_parent_digest = "";
  run_status = none;
  expected_store_generation = none;
}

abbrev completion : TransitionCall
completion = record {
  tenant_id = "t";
  session_id = "s";
  run_id = "r1";
  run_status = "COMPLETED";
  event_id = "done";
  event_type = "run_completed";
  timestamp = "2026-01-01T00:00:00Z";
  payload = end;
  writer_id = "w1";
  fence_token = pos 1;
  request_id = "q";
  expected_status = none;
  expected_store_generation = none;
  run_output = none;
  artifacts = [];
}

abbrev event_call : EventCall
event_call = record {
  tenant_id = "t";
  session_id = "s";
  run_id = "r1";
  event_id = "begun";
  event_type = "run_started";
  timestamp = "2026-01-01T00:00:00Z";
  payload = end;
  workflow_id = none;
  stage_id = none;
  task_id = none;
  run_revision = pos 0;
  expected_store_generation = none;
}

-- A Run of `w1`, its first event and its first revision
abbrev beginning : List (Host × Call)
beginning =
    (early, initializing "t" "s" "r1" "q" "RUNNING" none)
    ∷ (early, acquiring "t" "s" "r1" "w1" none "q" none true)
    ∷ (early, appending_event event_call)
    ∷ (early, appending_revision revision_call)
    ∷ []

abbrev begun : SqliteRuntimeStore
begun = run_calls (fresh_store "gen") beginning

-- The lease of `w1` has ended when `w2` takes the Run over.
abbrev taken : SqliteRuntimeStore
taken = run_calls begun ((late, taking_over "t" "s" "r1" "w2" (pos 1) "q" none true) ∷ [])

-- Another Run in the session of the first
abbrev second : SqliteRuntimeStore
second = run_calls begun ((late, initializing "t" "s" "r2" "q" "CREATED" none) ∷ [])

begun_numbers : map {B = ℕ} (λ e. e.event.sequence_number) begun.database.run_events ≡ 1 ∷ []
unfolding fetch_one update_where count_where greatest insert_by order_by require_text
    require_optional canonical_json check_generation require_writer write_transaction transact
    fetch_head is_json are_json are_json_fields is_same_event is_closed_to store_event
    append_event_tx event_draft append_event put_worker_lease converge_orphaned_run is_alive
    converge_rows assert_session_run_available renew_worker_lease_tx owner_renewal_tx
    renew_worker_lease initialize_run_tx initialize_run insert_fence grant_fence acquire_fence_tx
    acquire_fence standing takeover_fence_tx takeover_fence release_fence_tx release_fence
    validate_write_head revision_draft append_revision_tx append_revision insert_run_output
    insert_artifact_facts record_artifact expected_events allowed_targets transition_refusal
    transition_draft apply_transition transition_tx transition_run_with_event perform run_calls any
    select contains is_space lstrip_by rstrip_by strip
begun_numbers = refl

former_writer : Lost "w1" 1 (owner taken "t" "r1")
unfolding fetch_one update_where count_where greatest insert_by order_by require_text
    require_optional canonical_json check_generation require_writer write_transaction transact
    fetch_head is_json are_json are_json_fields is_same_event is_closed_to store_event
    append_event_tx event_draft append_event put_worker_lease converge_orphaned_run is_alive
    converge_rows assert_session_run_available renew_worker_lease_tx owner_renewal_tx
    renew_worker_lease initialize_run_tx initialize_run insert_fence grant_fence acquire_fence_tx
    acquire_fence standing takeover_fence_tx takeover_fence release_fence_tx release_fence
    validate_write_head revision_draft append_revision_tx append_revision insert_run_output
    insert_artifact_facts record_artifact expected_events allowed_targets transition_refusal
    transition_draft apply_transition transition_tx transition_run_with_event perform run_calls any
    select contains is_space lstrip_by rstrip_by strip
former_writer = inl (omega arith)

revision_names : (strip "w1" ≡ "w1") × (strip "t" ≡ "t") × (strip "r1" ≡ "r1") × (pos 1 ≡ pos 1)
unfolding strip is_space lstrip_by rstrip_by
revision_names = (refl, refl, refl, refl)

abbrev grant_of_second : FenceGrant
grant_of_second = record {
  tenant_id = "t";
  session_id = "s";
  run_id = "r2";
  writer_id = "w2";
  fence_token = 1;
  fence_epoch = 1;
  run_revision = 0;
  store_generation = "gen";
  idempotent = false;
}

-- `w2` begins its own Run behind the end of the lease of `w1`, whose Run is ended by it.
abbrev admitted : SqliteRuntimeStore
admitted = (acquire_fence late second "t" "s" "r2" "w2" none "q" none true).0

second_granted :
    acquire_fence late second "t" "s" "r2" "w2" none "q" none true ≡ (admitted, ok grant_of_second)
unfolding fetch_one update_where count_where greatest insert_by order_by require_text
    require_optional canonical_json check_generation require_writer write_transaction transact
    fetch_head is_json are_json are_json_fields is_same_event is_closed_to store_event
    append_event_tx event_draft append_event put_worker_lease converge_orphaned_run is_alive
    converge_rows assert_session_run_available renew_worker_lease_tx owner_renewal_tx
    renew_worker_lease initialize_run_tx initialize_run insert_fence grant_fence acquire_fence_tx
    acquire_fence standing takeover_fence_tx takeover_fence release_fence_tx release_fence
    validate_write_head revision_draft append_revision_tx append_revision insert_run_output
    insert_artifact_facts record_artifact expected_events allowed_targets transition_refusal
    transition_draft apply_transition transition_tx transition_run_with_event perform run_calls any
    select contains is_space lstrip_by rstrip_by strip
second_granted = refl

statuses :
    map {B = String} (λ h. h.run_status) admitted.database.run_heads
    ≡ "FAILED_TERMINAL" ∷ "CREATED" ∷ []
unfolding fetch_one update_where count_where greatest insert_by order_by require_text
    require_optional canonical_json check_generation require_writer write_transaction transact
    fetch_head is_json are_json are_json_fields is_same_event is_closed_to store_event
    append_event_tx event_draft append_event put_worker_lease converge_orphaned_run is_alive
    converge_rows assert_session_run_available renew_worker_lease_tx owner_renewal_tx
    renew_worker_lease initialize_run_tx initialize_run insert_fence grant_fence acquire_fence_tx
    acquire_fence standing takeover_fence_tx takeover_fence release_fence_tx release_fence
    validate_write_head revision_draft append_revision_tx append_revision insert_run_output
    insert_artifact_facts record_artifact expected_events allowed_targets transition_refusal
    transition_draft apply_transition transition_tx transition_run_with_event perform run_calls any
    select contains is_space lstrip_by rstrip_by strip
statuses = refl

abbrev grant_of_takeover : FenceGrant
grant_of_takeover = record grant_of_second {
  run_id = "r1";
  fence_token = 2;
  fence_epoch = 2;
  run_revision = 1;
}

takeover_granted :
    takeover_fence late begun "t" "s" "r1" "w2" (pos 1) "q" none true
    ≡ (taken, ok grant_of_takeover)
unfolding fetch_one update_where count_where greatest insert_by order_by require_text
    require_optional canonical_json check_generation require_writer write_transaction transact
    fetch_head is_json are_json are_json_fields is_same_event is_closed_to store_event
    append_event_tx event_draft append_event put_worker_lease converge_orphaned_run is_alive
    converge_rows assert_session_run_available renew_worker_lease_tx owner_renewal_tx
    renew_worker_lease initialize_run_tx initialize_run insert_fence grant_fence acquire_fence_tx
    acquire_fence standing takeover_fence_tx takeover_fence release_fence_tx release_fence
    validate_write_head revision_draft append_revision_tx append_revision insert_run_output
    insert_artifact_facts record_artifact expected_events allowed_targets transition_refusal
    transition_draft apply_transition transition_tx transition_run_with_event perform run_calls any
    select contains is_space lstrip_by rstrip_by strip
takeover_granted = refl

abbrev takeover_call : Call
takeover_call = taking_over "t" "s" "r1" "w2" (pos 1) "q" none true

perform-Move_example :
    Move (owner begun "t" "r1") (owner (perform late begun takeover_call) "t" "r1")
perform-Move_example = perform-Move late begun takeover_call "t" "r1"

run_calls-Refused_example :
    Refused (run_calls taken []) (append_revision late (run_calls taken []) revision_call)
    × Refused (run_calls taken []) (transition_run_with_event late (run_calls taken []) completion)
run_calls-Refused_example =
    run_calls-Refused late taken [] "w1" "t" "r1" 1 revision_call completion former_writer
      revision_names revision_names

run_calls-HasLogs_example : HasLogs begun.database
run_calls-HasLogs_example = run_calls-HasLogs (fresh_store "gen") beginning fresh-HasLogs

run_calls-HasChains_example : HasChains begun.database
run_calls-HasChains_example = run_calls-HasChains (fresh_store "gen") beginning fresh-HasChains

acquire_fence-alone_example :
    HasSessionAlone late (strip "t") (strip "s") (strip "r2") admitted.database
acquire_fence-alone_example =
    acquire_fence-alone late second admitted "t" "s" "r2" "w2" none "q" none grant_of_second
      second_granted

takeover_fence-alone_example :
    HasSessionAlone late (strip "t") (strip "s") (strip "r1") taken.database
takeover_fence-alone_example =
    takeover_fence-alone late begun taken "t" "s" "r1" "w2" (pos 1) "q" none grant_of_takeover
      takeover_granted

cursor_behind : 0 ≤ latest_sequence_of (strip "t") (strip "r1") begun.database.run_event_heads
cursor_behind = omega arith

events_read :
    read_events begun "t" "r1" "s" (pos 0) (as_int none)
    ≡ ok (map (λ e. e.event) begun.database.run_events)
unfolding fetch_one update_where count_where greatest insert_by order_by require_text
    require_optional canonical_json check_generation require_writer write_transaction transact
    fetch_head is_json are_json are_json_fields is_same_event is_closed_to store_event
    append_event_tx event_draft append_event put_worker_lease converge_orphaned_run is_alive
    converge_rows assert_session_run_available renew_worker_lease_tx owner_renewal_tx
    renew_worker_lease initialize_run_tx initialize_run insert_fence grant_fence acquire_fence_tx
    acquire_fence standing takeover_fence_tx takeover_fence release_fence_tx release_fence
    validate_write_head revision_draft append_revision_tx append_revision insert_run_output
    insert_artifact_facts record_artifact expected_events allowed_targets transition_refusal
    transition_draft apply_transition transition_tx transition_run_with_event perform run_calls any
    select contains is_space lstrip_by rstrip_by strip read_events order_by_number insert_by_number
events_read = refl

read_events-Complete_example :
    Complete 0 none
      (latest_sequence_of (strip "t") (strip "r1") begun.database.run_event_heads)
      (map (λ e. e.event) begun.database.run_events)
read_events-Complete_example =
    read_events-Complete begun "t" "r1" "s" 0 none (map (λ e. e.event) begun.database.run_events)
      (run_calls-HasLogs (fresh_store "gen") beginning fresh-HasLogs) cursor_behind events_read

-- The store when `w1` has just acquired its Run, and the head that it finds
abbrev acquired : List (Host × Call)
acquired =
    (early, initializing "t" "s" "r1" "q" "RUNNING" none)
    ∷ (early, acquiring "t" "s" "r1" "w1" none "q" none true)
    ∷ []

abbrev held : SqliteRuntimeStore
held = run_calls (fresh_store "gen") acquired

abbrev held_head : RunHead
held_head = record {
  tenant_id = "t";
  session_id = "s";
  run_id = "r1";
  request_id = "q";
  current_revision = 0;
  current_digest = "";
  current_writer_id = "w1";
  current_fence_token = 1;
  store_generation = "gen";
  run_status = "RUNNING";
  updated_at = "2026-01-01T00:00:00Z";
}

held_drafted : revision_draft early held.store_generation revision_call ≡ ok (revision_call, "{}")
unfolding fetch_one update_where count_where greatest insert_by order_by require_text
    require_optional canonical_json check_generation require_writer write_transaction transact
    fetch_head is_json are_json are_json_fields is_same_event is_closed_to store_event
    append_event_tx event_draft append_event put_worker_lease converge_orphaned_run is_alive
    converge_rows assert_session_run_available renew_worker_lease_tx owner_renewal_tx
    renew_worker_lease initialize_run_tx initialize_run insert_fence grant_fence acquire_fence_tx
    acquire_fence standing takeover_fence_tx takeover_fence release_fence_tx release_fence
    validate_write_head revision_draft append_revision_tx append_revision insert_run_output
    insert_artifact_facts record_artifact expected_events allowed_targets transition_refusal
    transition_draft apply_transition transition_tx transition_run_with_event perform run_calls any
    select contains is_space lstrip_by rstrip_by strip
held_drafted = refl

held_found : fetch_one (head_of "t" "r1") held.database.run_heads ≡ some held_head
unfolding fetch_one update_where count_where greatest insert_by order_by require_text
    require_optional canonical_json check_generation require_writer write_transaction transact
    fetch_head is_json are_json are_json_fields is_same_event is_closed_to store_event
    append_event_tx event_draft append_event put_worker_lease converge_orphaned_run is_alive
    converge_rows assert_session_run_available renew_worker_lease_tx owner_renewal_tx
    renew_worker_lease initialize_run_tx initialize_run insert_fence grant_fence acquire_fence_tx
    acquire_fence standing takeover_fence_tx takeover_fence release_fence_tx release_fence
    validate_write_head revision_draft append_revision_tx append_revision insert_run_output
    insert_artifact_facts record_artifact expected_events allowed_targets transition_refusal
    transition_draft apply_transition transition_tx transition_run_with_event perform run_calls any
    select contains is_space lstrip_by rstrip_by strip
held_found = refl

held_once : count_where (head_of "t" "r1") held.database.run_heads ≡ 1
unfolding fetch_one update_where count_where greatest insert_by order_by require_text
    require_optional canonical_json check_generation require_writer write_transaction transact
    fetch_head is_json are_json are_json_fields is_same_event is_closed_to store_event
    append_event_tx event_draft append_event put_worker_lease converge_orphaned_run is_alive
    converge_rows assert_session_run_available renew_worker_lease_tx owner_renewal_tx
    renew_worker_lease initialize_run_tx initialize_run insert_fence grant_fence acquire_fence_tx
    acquire_fence standing takeover_fence_tx takeover_fence release_fence_tx release_fence
    validate_write_head revision_draft append_revision_tx append_revision insert_run_output
    insert_artifact_facts record_artifact expected_events allowed_targets transition_refusal
    transition_draft apply_transition transition_tx transition_run_with_event perform run_calls any
    select contains is_space lstrip_by rstrip_by strip
held_once = refl

held_generation : "gen" ≡ held.store_generation
unfolding fetch_one update_where count_where greatest insert_by order_by require_text
    require_optional canonical_json check_generation require_writer write_transaction transact
    fetch_head is_json are_json are_json_fields is_same_event is_closed_to store_event
    append_event_tx event_draft append_event put_worker_lease converge_orphaned_run is_alive
    converge_rows assert_session_run_available renew_worker_lease_tx owner_renewal_tx
    renew_worker_lease initialize_run_tx initialize_run insert_fence grant_fence acquire_fence_tx
    acquire_fence standing takeover_fence_tx takeover_fence release_fence_tx release_fence
    validate_write_head revision_draft append_revision_tx append_revision insert_run_output
    insert_artifact_facts record_artifact expected_events allowed_targets transition_refusal
    transition_draft apply_transition transition_tx transition_run_with_event perform run_calls any
    select contains is_space lstrip_by rstrip_by strip
held_generation = refl

held_opened : held.closed ≡ false
unfolding fetch_one update_where count_where greatest insert_by order_by require_text
    require_optional canonical_json check_generation require_writer write_transaction transact
    fetch_head is_json are_json are_json_fields is_same_event is_closed_to store_event
    append_event_tx event_draft append_event put_worker_lease converge_orphaned_run is_alive
    converge_rows assert_session_run_available renew_worker_lease_tx owner_renewal_tx
    renew_worker_lease initialize_run_tx initialize_run insert_fence grant_fence acquire_fence_tx
    acquire_fence standing takeover_fence_tx takeover_fence release_fence_tx release_fence
    validate_write_head revision_draft append_revision_tx append_revision insert_run_output
    insert_artifact_facts record_artifact expected_events allowed_targets transition_refusal
    transition_draft apply_transition transition_tx transition_run_with_event perform run_calls any
    select contains is_space lstrip_by rstrip_by strip
held_opened = refl

append_revision-goes_through_example :
    (s' : SqliteRuntimeStore) × (v : RevisionRecord) × (append_revision early held revision_call
      ≡ (s', ok v))
    × MovedOn early revision_call "{}" held_head held s' v
append_revision-goes_through_example =
    append_revision-goes_through early held revision_call revision_call "{}" held_head
      (run_calls-HasChains (fresh_store "gen") acquired fresh-HasChains) held_opened refl
      held_drafted held_found held_once refl held_generation refl refl refl refl
