-- ===== src/RuntimeStore/Calls.antt =====
-- The calls of the durable store, one after the other. Every writer holds the lock of the database
-- from BEGIN IMMEDIATE to COMMIT, so that the transactions of all connections stand in a sequence.
pub mod Steps
use tsagent.Prelude.{String, Bool, Option, List, [], ◌∷◌, ◌≡◌, false}
use tsagent.Prelude.Int.{ℤ}
use tsagent.RuntimeStore.Tables.{SqliteRuntimeStore, Host, empty_database}
use tsagent.RuntimeStore.Events.{EventCall, append_event}
use tsagent.RuntimeStore.EventReads.{set_event_retention_floor}
use tsagent.RuntimeStore.Leases.{renew_worker_lease}
use tsagent.RuntimeStore.Fences.{initialize_run, acquire_fence}
use tsagent.RuntimeStore.Handover.{takeover_fence, release_fence}
use tsagent.RuntimeStore.Revisions.{RevisionCall, append_revision}
use tsagent.RuntimeStore.Transitions.{TransitionCall, transition_run_with_event}

-- The arguments stand in the order of the methods.
pub data Call : Type 0 where
  initializing : String → String → String → String → String → Option String → Call
  acquiring : String → String → String → String → Option ℤ → String → Option String → Bool → Call
  taking_over : String → String → String → String → ℤ → String → Option String → Bool → Call
  renewing : String → String → String → String → ℤ → Option String → Call
  releasing : String → String → String → String → ℤ → String → Option String → Call
  appending_revision : RevisionCall → Call
  appending_event : EventCall → Call
  transitioning : TransitionCall → Call
  retaining : String → String → String → ℤ → Call

-- The store behind one call
unfoldable pub perform : Host → SqliteRuntimeStore → Call → SqliteRuntimeStore
perform host s (initializing tenant session run request status generation) =
    (initialize_run host s tenant session run request status generation).0
perform host s (acquiring tenant session run writer expected request generation worker_lease) =
    (acquire_fence host s tenant session run writer expected request generation worker_lease).0
perform host s (taking_over tenant session run writer expected request generation worker_lease) =
    (takeover_fence host s tenant session run writer expected request generation worker_lease).0
perform host s (renewing tenant session run writer token generation) =
    (renew_worker_lease host s tenant session run writer token generation).0
perform host s (releasing tenant session run writer token request generation) =
    (release_fence host s tenant session run writer token request generation).0
perform host s (appending_revision c) = (append_revision host s c).0
perform host s (appending_event c) = (append_event host s c).0
perform host s (transitioning c) = (transition_run_with_event host s c).0
perform host s (retaining tenant session run floor) =
    (set_event_retention_floor host s tenant session run floor).0

-- The store behind a sequence of calls
unfoldable pub run_calls : SqliteRuntimeStore → List (Host × Call) → SqliteRuntimeStore
run_calls s [] = s
run_calls s ((host, c) ∷ calls) = run_calls (perform host s c) calls

-- A database just created
abbrev pub fresh_store : String → SqliteRuntimeStore
fresh_store generation = record {
  database = empty_database;
  store_generation = generation;
  closed = false;
}
