-- ===== src/RuntimeStore.antt =====
-- agent/runtime_store/: the durable store of Runs in one SQLite database.
pub mod Errors
pub mod Sql
pub mod Tables
pub mod Transaction
pub mod Events
pub mod EventReads
pub mod Leases
pub mod Fences
mod HeadReads
pub mod Handover
pub mod Revisions
pub mod Artifacts
pub mod Transitions
pub mod Calls
pub mod Ownership
pub mod Logs
pub mod Admission
mod Examples
