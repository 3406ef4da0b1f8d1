-- ===== src/RuntimeStore/Tables.antt =====
-- agent/runtime_store/contracts.py and the schema of agent/runtime_store/sqlite.py: the rows of the
-- tables of Runs, fences, worker leases, revisions, events,
-- outputs and artifacts, and the store that holds them.
use tsagent.Prelude.{ℕ, String, Bool, Option, List, [], ◌==◌, ◌&&◌}
use tsagent.Checkpoint.Json.{Json}

pub record RunHead : Type 0 where
  pub tenant_id : String
  pub session_id : String
  pub run_id : String
  pub request_id : String
  pub current_revision : ℕ
  pub current_digest : String
  pub current_writer_id : String
  pub current_fence_token : ℕ
  pub store_generation : String
  pub run_status : String
  pub updated_at : String

-- A row of `run_fences`; `released_at` is NULL while the fence is held.
pub record FenceRow : Type 0 where
  pub tenant_id : String
  pub session_id : String
  pub run_id : String
  pub writer_id : String
  pub fence_token : ℕ
  pub fence_epoch : ℕ
  pub acquired_at : String
  pub released_at : Option String

-- A row of `run_worker_leases`.
pub record WorkerLease : Type 0 where
  pub tenant_id : String
  pub session_id : String
  pub run_id : String
  pub writer_id : String
  pub fence_token : ℕ
  pub heartbeat_at : String
  pub expires_at : String

pub record RevisionRecord : Type 0 where
  pub tenant_id : String
  pub session_id : String
  pub run_id : String
  pub revision : ℕ
  pub parent_digest : String
  pub payload_json : String
  pub payload_digest : String
  pub request_id : String
  pub writer_id : String
  pub fence_token : ℕ
  pub created_at : String

-- A row of `run_event_heads`.
pub record EventHeadRow : Type 0 where
  pub tenant_id : String
  pub session_id : String
  pub run_id : String
  pub latest_sequence : ℕ
  pub retained_from_sequence : ℕ
  pub updated_at : String

pub record DurableEventRecord : Type 0 where
  pub event_id : String
  pub sequence_number : ℕ
  pub tenant_id : String
  pub session_id : String
  pub run_id : String
  pub workflow_id : Option String
  pub stage_id : Option String
  pub task_id : Option String
  pub event_type : String
  pub timestamp : String
  pub payload_json : String
  pub payload_digest : String
  pub run_revision : ℕ

-- A row of `run_events` is an event and the time of its insertion.
pub record EventRow : Type 0 where
  pub event : DurableEventRecord
  pub created_at : String

-- A row of `run_outputs`; the texts of the identities are their canonical JSON.
pub record OutputRow : Type 0 where
  pub tenant_id : String
  pub session_id : String
  pub run_id : String
  pub revision : ℕ
  pub text : String
  pub evidence_ids_json : String
  pub artifact_ids_json : String
  pub created_at : String

-- `ArtifactCommitFact`
pub record ArtifactCommitFact : Type 0 where
  pub artifact_id : String
  pub artifact_type : String
  pub reference : String
  pub digest : String
  pub producer_workflow_id : String
  pub producer_stage_id : String
  pub exists : Bool
  pub verified : Bool
  pub verification_evidence_digest : String
  pub producer_task_id : String

-- A row of `artifact_metadata`
pub record ArtifactRow : Type 0 where
  pub tenant_id : String
  pub session_id : String
  pub run_id : String
  pub fact : ArtifactCommitFact
  pub created_revision : ℕ
  pub last_updated_revision : ℕ
  pub request_id : String
  pub updated_at : String

pub record FenceGrant : Type 0 where
  pub tenant_id : String
  pub session_id : String
  pub run_id : String
  pub writer_id : String
  pub fence_token : ℕ
  pub fence_epoch : ℕ
  pub run_revision : ℕ
  pub store_generation : String
  pub idempotent : Bool

pub record Database : Type 0 where
  pub run_heads : List RunHead
  pub run_fences : List FenceRow
  pub run_worker_leases : List WorkerLease
  pub run_resume_revisions : List RevisionRecord
  pub run_event_heads : List EventHeadRow
  pub run_events : List EventRow
  pub run_outputs : List OutputRow
  pub artifact_metadata : List ArtifactRow

abbrev pub empty_database : Database
empty_database = record {
  run_heads = [];
  run_fences = [];
  run_worker_leases = [];
  run_resume_revisions = [];
  run_event_heads = [];
  run_events = [];
  run_outputs = [];
  artifact_metadata = [];
}

-- `SqliteRuntimeStore`: its connection is the database.
pub record SqliteRuntimeStore : Type 0 where
  pub database : Database
  pub store_generation : String
  pub closed : Bool

-- The conditions `tenant_id = ? AND run_id = ?` on each table.
abbrev pub head_of : String → String → RunHead → Bool
head_of tenant run h = h.tenant_id == tenant && h.run_id == run

abbrev pub fence_of : String → String → FenceRow → Bool
fence_of tenant run f = f.tenant_id == tenant && f.run_id == run

abbrev pub lease_of : String → String → WorkerLease → Bool
lease_of tenant run l = l.tenant_id == tenant && l.run_id == run

abbrev pub revision_of : String → String → RevisionRecord → Bool
revision_of tenant run v = v.tenant_id == tenant && v.run_id == run

abbrev pub event_head_of : String → String → EventHeadRow → Bool
event_head_of tenant run h = h.tenant_id == tenant && h.run_id == run

abbrev pub event_of : String → String → EventRow → Bool
event_of tenant run e = e.event.tenant_id == tenant && e.event.run_id == run

-- The readings of the clock that one call takes, in the order of the code.
pub data Reading : Type 0 where
  admission checked fenced leased stored : Reading
  appended : String → Reading

-- What the store takes from its surroundings during one call: `now` is `_now()` at a reading,
-- `lease_expiry` is `_worker_lease_expiry()` and `lease_grace` the time one lease ago; `busy` says
-- that SQLite reports the lock of the writer as held; `sha256` is the digest of `hashlib`, `dumps`
-- is `json.dumps` with sorted keys and no spaces; `upper` is `str.upper`, `str_of` is `str` of an
-- integer.
pub record Host : Type 0 where
  pub now : Reading → String
  pub lease_expiry : String
  pub lease_grace : String
  pub busy : Bool
  pub sha256 : String → String
  pub dumps : Json → String
  pub upper : String → String
  pub str_of : ℕ → String
