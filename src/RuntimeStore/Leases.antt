-- ===== src/RuntimeStore/Leases.antt =====
-- agent/runtime_store/sqlite.py: the leases of the workers, and the admission of one Run at a time
-- to a session.
use tsagent.Prelude.{
  String, Bool, true, false, Option, none, some, List, [], ◌∷◌, not, ◌==◌, ◌&&◌, ◌||◌, ℕ,
}
use tsagent.Prelude.Int.{ℤ, pos, int_eq, is_positive}
use tsagent.Prelude.Lists.{any, select}
use tsagent.Prelude.Result.{Result, ok, raise_if, ◌>>=◌}
use tsagent.Prelude.Text.{contains, ◌<>◌}
use tsagent.Checkpoint.Json.{Json, text, boolean, object, array, nil, cons, end, field}
use tsagent.RuntimeStore.Errors.{StoreErrorCode, session_run_active, stale_writer, invalid_argument}
use tsagent.RuntimeStore.Sql.{fetch_one, update_where, delete_where, upsert, order_by, text_gt}
use tsagent.RuntimeStore.Tables.{
  Database, SqliteRuntimeStore, RunHead, WorkerLease, Host, head_of, lease_of, admission, leased,
}
use tsagent.RuntimeStore.Transaction.{
  Transaction, require_writer, canonical_json, check_generation, fetch_head, transact,
}
use tsagent.RuntimeStore.Events.{EventDraft, append_event_tx}

-- `_put_worker_lease_tx`
unfoldable pub put_worker_lease : Host → String → String → String → String → ℕ → Database → Database
put_worker_lease host tenant session run writer token db = record db {
  run_worker_leases =
      upsert (lease_of tenant run)
        (record {
          tenant_id = tenant;
          session_id = session;
          run_id = run;
          writer_id = writer;
          fence_token = token;
          heartbeat_at = host.now leased;
          expires_at = host.lease_expiry;
        })
        db.run_worker_leases;
}

-- the payload of the event that a lost worker leaves
abbrev pub lost_payload : Json
lost_payload = object (
    field "request_id" (text "") (
      field "failure_code" (text "RUN_WORKER_LOST") (
        field "failure_class" (text "execution") (
          field "failed_component" (text "runtime") (
            field "retryable" (boolean false) (
              field "continuation"
                (object (
                  field "request" (text "") (
                    field "goal" (text "") (
                      field "missing" (array (cons (text "RUN_WORKER_LOST") nil))
                        (field "observations" (array nil) end)))))
                end))))))

-- the event that it leaves
abbrev pub lost_draft : Host → String → String → RunHead → String → EventDraft
lost_draft host tenant session row payload_json = record {
  tenant_id = tenant;
  session_id = session;
  run_id = row.run_id;
  event_id = "run-failed:" <> row.run_id <> ":worker-lost:" <> host.str_of row.current_revision;
  event_type = "run_failed";
  timestamp = host.now admission;
  workflow_id = none;
  stage_id = none;
  task_id = none;
  payload_json = payload_json;
  payload_digest = host.sha256 payload_json;
  run_revision = row.current_revision;
}

-- `_converge_orphaned_run_tx`
unfoldable pub converge_orphaned_run :
    Host → String → String → String → RunHead → Database → Result StoreErrorCode Database
converge_orphaned_run host generation tenant session row db =
    let now = host.now admission in
    canonical_json host lost_payload >>= λ payload_json.
    append_event_tx host generation (lost_draft host tenant session row payload_json) db
    >>= λ appended.
        let db' = appended.0 in
        ok (record db' {
          run_heads =
              update_where (head_of tenant row.run_id)
                (λ h. record h { run_status = "FAILED_TERMINAL"; updated_at = now }) db'.run_heads;
          run_worker_leases = delete_where (lease_of tenant row.run_id) db'.run_worker_leases;
        })

abbrev pub is_active : String → Bool
is_active status = contains ("CREATED" ∷ "RUNNING" ∷ "CANCELLING" ∷ []) status

-- Whether the lease of an active Run shows its worker to be alive, or may still be taken
unfoldable pub is_alive : Host → Option WorkerLease → RunHead → Bool
is_alive host (some lease) h = text_gt lease.expires_at (host.now admission)
is_alive host none h = text_gt h.updated_at host.lease_grace

-- the loop of `_assert_session_run_available_tx`
unfoldable pub converge_rows :
    Host → String → String → String → List RunHead → Database → Result StoreErrorCode Database
converge_rows host generation tenant session [] db = ok db
converge_rows host generation tenant session (row ∷ rows) db =
    raise_if (is_alive host (fetch_one (lease_of tenant row.run_id) db.run_worker_leases) row)
      session_run_active
      (converge_orphaned_run host generation tenant session row db >>= λ db'.
        converge_rows host generation tenant session rows db')

-- the condition of the query of active Runs
abbrev pub is_rival : String → String → String → RunHead → Bool
is_rival tenant session current h =
    h.tenant_id == tenant
    && h.session_id == session
    && not (h.run_id == current)
    && is_active h.run_status

-- the condition of the query of live leases
abbrev pub is_rival_lease : Host → String → String → String → WorkerLease → Bool
is_rival_lease host tenant session current l =
    l.tenant_id == tenant
    && l.session_id == session
    && not (l.run_id == current)
    && text_gt l.expires_at (host.now admission)

-- `_assert_session_run_available_tx`
unfoldable pub assert_session_run_available :
    Host → String → String → String → String → Database → Result StoreErrorCode Database
assert_session_run_available host generation tenant session current db =
    converge_rows host generation tenant session
      (order_by (λ h. h.updated_at) (λ h. h.run_id)
        (select (is_rival tenant session current) db.run_heads))
      db
    >>= λ db'.
        raise_if (any (is_rival_lease host tenant session current) db'.run_worker_leases)
          session_run_active (ok db')

-- the condition of the update in `_renew_worker_lease_tx`, and its test in front of it
abbrev pub is_own_lease : Host → String → String → String → String → ℤ → WorkerLease → Bool
is_own_lease host tenant session run writer token l =
    lease_of tenant run l
    && l.session_id == session
    && l.writer_id == writer
    && int_eq (pos l.fence_token) token
    && text_gt l.expires_at (host.now leased)

abbrev lapsed : Host → String → ℤ → Option WorkerLease → Bool
lapsed host writer token none = true
lapsed host writer token (some l) =
    not (l.writer_id == writer)
    || not (int_eq (pos l.fence_token) token)
    || not (text_gt l.expires_at (host.now leased))

-- `_renew_worker_lease_tx`
unfoldable pub renew_worker_lease_tx :
    Host → String → String → String → String → ℤ → Database → Result StoreErrorCode Database
renew_worker_lease_tx host tenant session run writer token db =
    raise_if
      (lapsed host writer token
        (fetch_one (λ l. lease_of tenant run l && l.session_id == session) db.run_worker_leases))
      stale_writer
      (ok (record db {
        run_worker_leases =
            update_where (is_own_lease host tenant session run writer token)
              (λ l. record l { heartbeat_at = host.now leased; expires_at = host.lease_expiry })
              db.run_worker_leases;
      }))

-- Whether the head names another writer or token
abbrev pub is_stale : String → ℤ → RunHead → Bool
is_stale writer token h =
    not (int_eq (pos h.current_fence_token) token) || not (h.current_writer_id == writer)

-- the transaction of `renew_worker_lease`
unfoldable pub owner_renewal_tx :
    Host → String → String → String → String → String → ℤ → Transaction Unit
owner_renewal_tx host generation tenant session run writer token db =
    fetch_head generation db tenant run (some session) >>= λ head.
    raise_if (is_stale writer token head) stale_writer
      (renew_worker_lease_tx host tenant session run writer token db >>= λ db'. ok (db', tt))

-- `renew_worker_lease`
unfoldable pub renew_worker_lease :
    Host
    → SqliteRuntimeStore
    → String
    → String
    → String
    → String
    → ℤ
    → Option String
    → SqliteRuntimeStore × Result StoreErrorCode Unit
renew_worker_lease host s tenant_id session_id run_id writer_id token expected_generation =
    transact host s
      (require_writer tenant_id session_id run_id writer_id >>= λ scope.
        raise_if (not (is_positive token)) invalid_argument
          (check_generation s.store_generation expected_generation >>= λ _. ok scope))
      (λ (tenant, session, run, writer).
        owner_renewal_tx host s.store_generation tenant session run writer token)
