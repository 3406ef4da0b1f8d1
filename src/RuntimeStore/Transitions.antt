-- ===== src/RuntimeStore/Transitions.antt =====
-- agent/runtime_store/sqlite.py: the status of a Run changed together with its event, its output
-- and its artifacts.
use tsagent.Prelude.{
  String, Bool, false, Option, none, some, List, [], ◌∷◌, not, ◌==◌, ◌&&◌, nat_eq, if◌then◌else◌,
}
use tsagent.Prelude.Int.{ℤ, is_positive}
use tsagent.Prelude.Result.{Result, ok, err, raise_if, ◌>>=◌}
use tsagent.Prelude.Text.{contains}
use tsagent.Checkpoint.Json.{Fields, object}
use tsagent.RuntimeStore.Errors.{StoreErrorCode, stale_writer, revision_conflict, invalid_argument}
use tsagent.RuntimeStore.Sql.{update_where, count_where}
use tsagent.RuntimeStore.Tables.{
  Database, SqliteRuntimeStore, RunHead, ArtifactCommitFact, Host, head_of, stored,
}
use tsagent.RuntimeStore.Transaction.{
  Transaction, require_text, canonical_json, check_generation, fetch_head, transact,
}
use tsagent.RuntimeStore.Leases.{is_stale}
use tsagent.RuntimeStore.Handover.{without_lease}
use tsagent.RuntimeStore.Events.{EventDraft, append_event_tx}
use tsagent.RuntimeStore.Artifacts.{RunOutput, insert_run_output, insert_artifact_facts}

-- `terminal_statuses`
abbrev pub terminal_statuses : List String
terminal_statuses = "COMPLETED" ∷ "FAILED_TERMINAL" ∷ "CANCELLED" ∷ "TIMED_OUT" ∷ []

-- `expected_event_for_status.get(status, set())`
unfoldable pub expected_events : String → List String
expected_events status =
    if status == "RUNNING"
    then "run_started" ∷ "run_resumed" ∷ []
    else if status == "CANCELLING"
    then "run_cancelling" ∷ []
    else if status == "COMPLETED"
    then "run_completed" ∷ []
    else if status == "FAILED_TERMINAL"
    then "run_failed" ∷ []
    else if status == "BLOCKED"
    then "run_blocked" ∷ []
    else if status == "WAITING_USER"
    then "run_waiting_user" ∷ []
    else if status == "CANCELLED"
    then "run_cancelled" ∷ []
    else if status == "TIMED_OUT"
    then "run_timed_out" ∷ []
    else []

-- `allowed_targets.get(status, set())`
unfoldable pub allowed_targets : String → List String
allowed_targets status =
    if status == "CREATED"
    then "RUNNING" ∷ "CANCELLING" ∷ []
    else if status == "RUNNING"
    then "RUNNING" ∷ "CANCELLING" ∷ "COMPLETED" ∷ "FAILED_TERMINAL" ∷ "BLOCKED" ∷ "WAITING_USER"
      ∷ []
    else if status == "SUSPENDED"
    then "RUNNING" ∷ "CANCELLING" ∷ []
    else if status == "WAITING_USER"
    then "RUNNING" ∷ "CANCELLING" ∷ []
    else if status == "FAILED_RECOVERABLE"
    then "RUNNING" ∷ "CANCELLING" ∷ []
    else if status == "CANCELLING"
    then "CANCELLED" ∷ "TIMED_OUT" ∷ []
    else if status == "COMPLETED"
    then "COMPLETED" ∷ []
    else if status == "FAILED_TERMINAL"
    then "FAILED_TERMINAL" ∷ []
    else if status == "BLOCKED"
    then "RUNNING" ∷ "BLOCKED" ∷ []
    else if status == "CANCELLED"
    then "CANCELLED" ∷ []
    else if status == "TIMED_OUT"
    then "TIMED_OUT" ∷ []
    else []

-- The statuses that end the lease of the worker
abbrev pub resting_statuses : List String
resting_statuses = "COMPLETED" ∷ "FAILED_TERMINAL" ∷ "BLOCKED" ∷ "CANCELLED" ∷ "TIMED_OUT" ∷ []

-- `expected is not None and current != expected`
abbrev is_other : Option String → String → Bool
is_other none current = false
is_other (some status) current = not (current == status)

-- The statuses in front of and behind a transition, and its event: `none` if they are allowed
unfoldable pub transition_refusal : String → String → String → Option String → Option StoreErrorCode
transition_refusal current status event_type expected =
    if contains terminal_statuses current && not (status == current)
    then some revision_conflict
    else if not (contains (allowed_targets current) status)
    then some revision_conflict
    else if not (contains (expected_events status) event_type)
    then some invalid_argument
    else if is_other expected current
    then some revision_conflict
    else none

-- The arguments of `transition_run_with_event`
pub record TransitionCall : Type 0 where
  pub tenant_id : String
  pub session_id : String
  pub run_id : String
  pub run_status : String
  pub event_id : String
  pub event_type : String
  pub timestamp : String
  pub payload : Fields
  pub writer_id : String
  pub fence_token : ℤ
  pub request_id : String
  pub expected_status : Option String
  pub expected_store_generation : Option String
  pub run_output : Option RunOutput
  pub artifacts : List ArtifactCommitFact

-- the part in front of the transaction: the call with the texts stripped, and the payload's text
unfoldable pub transition_draft :
    Host → String → TransitionCall → Result StoreErrorCode (TransitionCall × String)
transition_draft host generation c = require_text c.tenant_id >>= λ tenant.
    require_text c.session_id >>= λ session. require_text c.run_id >>= λ run.
    require_text c.run_status >>= λ status. require_text c.event_id >>= λ event_id.
    require_text c.event_type >>= λ event_type. require_text c.timestamp >>= λ timestamp.
    require_text c.writer_id >>= λ writer. require_text c.request_id >>= λ request.
    raise_if (not (is_positive c.fence_token)) invalid_argument (
      canonical_json host (object c.payload) >>= λ payload_json.
      check_generation generation c.expected_store_generation >>= λ _. ok (
        record c {
          tenant_id = tenant;
          session_id = session;
          run_id = run;
          run_status = status;
          event_id = event_id;
          event_type = event_type;
          timestamp = timestamp;
          writer_id = writer;
          request_id = request;
        },
        payload_json,
      ))

abbrev pub transition_event : Host → TransitionCall → String → RunHead → EventDraft
transition_event host c payload_json row = record {
  tenant_id = c.tenant_id;
  session_id = c.session_id;
  run_id = c.run_id;
  event_id = c.event_id;
  event_type = c.event_type;
  timestamp = c.timestamp;
  workflow_id = none;
  stage_id = none;
  task_id = none;
  payload_json = payload_json;
  payload_digest = host.sha256 payload_json;
  run_revision = row.current_revision;
}

-- the condition of the update of the head
abbrev pub is_read_head : TransitionCall → RunHead → RunHead → Bool
is_read_head c row h =
    head_of c.tenant_id c.run_id h
    && nat_eq h.current_revision row.current_revision
    && not (is_stale c.writer_id c.fence_token h)

-- the update of the head, and the end of the lease of a Run that rests
abbrev pub transition_writes : Host → TransitionCall → RunHead → Database → Database
transition_writes host c row db =
    let db' = record db {
      run_heads =
          update_where (is_read_head c row)
            (λ h. record h {
              run_status = c.run_status;
              request_id = c.request_id;
              updated_at = host.now stored;
            })
            db.run_heads;
    } in
    if contains resting_statuses c.run_status
    then without_lease c.tenant_id c.session_id c.run_id c.writer_id c.fence_token db'
    else db'

-- from the checks of the statuses on
unfoldable pub apply_transition :
    Host → String → TransitionCall → String → RunHead → Option StoreErrorCode → Transaction RunHead
apply_transition host generation c payload_json row (some e) db = err e
apply_transition host generation c payload_json row none db =
    insert_run_output host c.tenant_id c.session_id c.run_id row.current_revision c.run_output db
    >>= λ db1.
        insert_artifact_facts host c.tenant_id c.session_id c.run_id row.current_revision
          c.request_id c.artifacts db1
        >>= λ db2.
            append_event_tx host generation (transition_event host c payload_json row) db2
            >>= λ appended.
                let db3 = appended.0 in
                raise_if (not (nat_eq (count_where (is_read_head c row) db3.run_heads) 1))
                  revision_conflict
                  (let db4 = transition_writes host c row db3 in
                    fetch_head generation db4 c.tenant_id c.run_id (some c.session_id) >>= λ head.
                    ok (db4, head))

-- the transaction of `transition_run_with_event`
unfoldable pub transition_tx : Host → String → TransitionCall → String → Transaction RunHead
transition_tx host generation c payload_json db =
    fetch_head generation db c.tenant_id c.run_id (some c.session_id) >>= λ row.
    raise_if (is_stale c.writer_id c.fence_token row) stale_writer (
      apply_transition host generation c payload_json row
        (transition_refusal row.run_status c.run_status c.event_type c.expected_status) db)

-- `transition_run_with_event`
unfoldable pub transition_run_with_event :
    Host → SqliteRuntimeStore → TransitionCall → SqliteRuntimeStore × Result StoreErrorCode RunHead
transition_run_with_event host s c =
    transact host s (transition_draft host s.store_generation c)
      (λ (c', payload_json). transition_tx host s.store_generation c' payload_json)
