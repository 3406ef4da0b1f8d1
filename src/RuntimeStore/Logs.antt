-- ===== src/RuntimeStore/Logs.antt =====
-- The two logs of a Run, of revisions and of events: which transactions of
-- agent/runtime_store/sqlite.py write to them.
mod Untouched
mod Frame
pub mod EventLogs
pub mod Events
pub mod Chains
pub mod Revisions
pub mod Liveness
use tsagent.Prelude.{◌≡◌}
use tsagent.RuntimeStore.Tables.{Database}

-- The tables of the logs are the same in both databases.
abbrev pub SameLogs : Database → Database → Type 0
SameLogs db db' =
    (db'.run_resume_revisions ≡ db.run_resume_revisions)
    × (db'.run_event_heads ≡ db.run_event_heads)
    × (db'.run_events ≡ db.run_events)
