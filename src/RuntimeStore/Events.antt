-- ===== src/RuntimeStore/Events.antt =====
-- agent/runtime_store/sqlite.py: the events of a Run.
use tsagent.Prelude.{
  ℕ, suc, String, Bool, true, false, Option, none, some, List, [], ◌∷◌, ◌++◌, not, ◌==◌, ◌&&◌, ◌||◌,
  nat_eq, if◌then◌else◌,
}
use tsagent.Prelude.Int.{ℤ, pos, negsuc}
use tsagent.Prelude.Lists.{any, select}
use tsagent.Prelude.Result.{Result, ok, err, raise_if, ◌>>=◌}
use tsagent.Prelude.Text.{contains}
use tsagent.Checkpoint.Json.{Fields, object}
use tsagent.RuntimeStore.Errors.{
  StoreErrorCode, invalid_argument, idempotency_conflict, revision_conflict,
}
use tsagent.RuntimeStore.Sql.{fetch_one, update_where, count_where, greatest, insert_unique}
use tsagent.RuntimeStore.Tables.{
  Database, SqliteRuntimeStore, EventHeadRow, EventRow, DurableEventRecord, Host, event_head_of,
  event_of, appended,
}
use tsagent.RuntimeStore.Transaction.{
  Transaction, require_text, require_optional, canonical_json, check_generation, fetch_head,
  transact,
}

-- The arguments of `_append_event_tx`
pub record EventDraft : Type 0 where
  pub tenant_id : String
  pub session_id : String
  pub run_id : String
  pub event_id : String
  pub event_type : String
  pub timestamp : String
  pub workflow_id : Option String
  pub stage_id : Option String
  pub task_id : Option String
  pub payload_json : String
  pub payload_digest : String
  pub run_revision : ℕ

abbrev pub same_text : Option String → Option String → Bool
same_text none none = true
same_text (some s) (some t) = s == t
same_text _ _ = false

-- `same_identity`
unfoldable pub is_same_event : DurableEventRecord → EventDraft → Bool
is_same_event e d =
    e.session_id == d.session_id
    && e.event_type == d.event_type
    && same_text e.workflow_id d.workflow_id
    && same_text e.stage_id d.stage_id
    && same_text e.task_id d.task_id
    && e.timestamp == d.timestamp
    && e.payload_digest == d.payload_digest
    && nat_eq e.run_revision d.run_revision

abbrev pub terminal_events : List String
terminal_events =
    "run_completed" ∷ "run_failed" ∷ "run_blocked" ∷ "run_cancelled" ∷ "run_timed_out" ∷ []

-- Whether an event of type `next` cannot stand behind one of type `latest`
unfoldable pub is_closed_to : String → String → Bool
is_closed_to latest next =
    contains terminal_events latest && not (latest == "run_blocked" && next == "run_resumed")

abbrev pub latest_event : Database → EventDraft → Option EventRow
latest_event db d =
    greatest (λ e. e.event.sequence_number) (select (event_of d.tenant_id d.run_id) db.run_events)

abbrev pub blocks : Option EventRow → String → Bool
blocks none next = false
blocks (some e) next = is_closed_to e.event.event_type next

abbrev pub first_event_head : Host → EventDraft → EventHeadRow
first_event_head host d = record {
  tenant_id = d.tenant_id;
  session_id = d.session_id;
  run_id = d.run_id;
  latest_sequence = 0;
  retained_from_sequence = 0;
  updated_at = host.now (appended d.run_id);
}

-- `INSERT OR IGNORE INTO run_event_heads`
abbrev pub with_event_head : Host → EventDraft → List EventHeadRow → List EventHeadRow
with_event_head host d heads =
    if any (event_head_of d.tenant_id d.run_id) heads
    then heads
    else heads ++ first_event_head host d ∷ []

abbrev pub event_row : Host → EventDraft → ℕ → EventRow
event_row host d sequence = record {
  event = record {
    event_id = d.event_id;
    sequence_number = sequence;
    tenant_id = d.tenant_id;
    session_id = d.session_id;
    run_id = d.run_id;
    workflow_id = d.workflow_id;
    stage_id = d.stage_id;
    task_id = d.task_id;
    event_type = d.event_type;
    timestamp = d.timestamp;
    payload_json = d.payload_json;
    payload_digest = d.payload_digest;
    run_revision = d.run_revision;
  };
  created_at = host.now (appended d.run_id);
}

-- the event at a sequence number, read again
abbrev pub reloaded :
    Database → Option EventRow → Result StoreErrorCode (Database × DurableEventRecord)
reloaded db none = err invalid_argument
reloaded db (some e) = ok (db, e.event)

-- the insertion of the event behind `latest`
abbrev pub insert_event :
    Host → EventDraft → ℕ → List EventRow → Result StoreErrorCode (List EventRow)
insert_event host d latest rows =
    insert_unique
      (λ e.
        event_of d.tenant_id d.run_id e
        && (nat_eq e.event.sequence_number (suc latest) || e.event.event_id == d.event_id))
      (event_row host d (suc latest)) rows

-- the part of `_append_event_tx` from the row of `run_event_heads` on
unfoldable pub store_event :
    Host
    → EventDraft
    → Database
    → List EventHeadRow
    → Option EventHeadRow
    → Result StoreErrorCode (Database × DurableEventRecord)
store_event host d db heads none = err invalid_argument
store_event host d db heads (some head) =
    let sequence = suc head.latest_sequence in
    let current = λ (h : EventHeadRow).
      event_head_of d.tenant_id d.run_id h && nat_eq h.latest_sequence head.latest_sequence in
    insert_event host d head.latest_sequence db.run_events >>= λ events.
    raise_if (not (nat_eq (count_where current heads) 1)) revision_conflict (
      reloaded
        (record db {
          run_event_heads =
              update_where current
                (λ h. record h {
                  latest_sequence = sequence;
                  updated_at = host.now (appended d.run_id);
                })
                heads;
          run_events = events;
        })
        (fetch_one (λ e. event_of d.tenant_id d.run_id e && nat_eq e.event.sequence_number sequence)
          events))

-- `_append_event_tx`
unfoldable pub append_event_tx : Host → String → EventDraft → Transaction DurableEventRecord
append_event_tx host generation d db =
    fetch_head generation db d.tenant_id d.run_id (some d.session_id) >>= λ _.
    elim (fetch_one (λ e. event_of d.tenant_id d.run_id e && e.event.event_id == d.event_id)
      db.run_events) [
        | some existing ↦
            raise_if (not (is_same_event existing.event d)) idempotency_conflict
              (ok (db, existing.event))
        | none ↦ raise_if (blocks (latest_event db d) d.event_type) invalid_argument (
            let heads = with_event_head host d db.run_event_heads in
            store_event host d db heads (fetch_one (event_head_of d.tenant_id d.run_id) heads))
      ]

-- `run_revision` of a call: a negative one is refused.
abbrev pub revision_argument : ℤ → Result StoreErrorCode ℕ
revision_argument (pos n) = ok n
revision_argument (negsuc n) = err invalid_argument

-- The arguments of `append_event`
pub record EventCall : Type 0 where
  pub tenant_id : String
  pub session_id : String
  pub run_id : String
  pub event_id : String
  pub event_type : String
  pub timestamp : String
  pub payload : Fields
  pub workflow_id : Option String
  pub stage_id : Option String
  pub task_id : Option String
  pub run_revision : ℤ
  pub expected_store_generation : Option String

-- the part of `append_event` in front of the transaction
unfoldable pub event_draft : Host → String → EventCall → Result StoreErrorCode EventDraft
event_draft host generation c = require_text c.tenant_id >>= λ tenant.
    require_text c.session_id >>= λ session. require_text c.run_id >>= λ run.
    require_text c.event_id >>= λ event_id. require_text c.event_type >>= λ event_type.
    require_text c.timestamp >>= λ timestamp. revision_argument c.run_revision >>= λ revision.
    require_optional c.workflow_id >>= λ workflow. require_optional c.stage_id >>= λ stage.
    require_optional c.task_id >>= λ task.
    canonical_json host (object c.payload) >>= λ payload_json.
    check_generation generation c.expected_store_generation >>= λ _. ok (record {
      tenant_id = tenant;
      session_id = session;
      run_id = run;
      event_id = event_id;
      event_type = event_type;
      timestamp = timestamp;
      workflow_id = workflow;
      stage_id = stage;
      task_id = task;
      payload_json = payload_json;
      payload_digest = host.sha256 payload_json;
      run_revision = revision;
    })

-- `append_event`
unfoldable pub append_event :
    Host
    → SqliteRuntimeStore
    → EventCall
    → SqliteRuntimeStore × Result StoreErrorCode DurableEventRecord
append_event host s c =
    transact host s (event_draft host s.store_generation c)
      (λ d. append_event_tx host s.store_generation d)
