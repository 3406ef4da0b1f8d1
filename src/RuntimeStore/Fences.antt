-- ===== src/RuntimeStore/Fences.antt =====
-- agent/runtime_store/sqlite.py: the creation of a Run and the fence that gives it to one writer.
use tsagent.Prelude.{
  ℕ, suc, String, Bool, true, false, Option, none, some, List, [], ◌∷◌, ◌++◌, not, ◌==◌, ◌&&◌, ◌||◌,
  nat_eq, ltb, if◌then◌else◌,
}
use tsagent.Prelude.Int.{ℤ, pos, int_eq, is_zero}
use tsagent.Prelude.Lists.{any}
use tsagent.Prelude.Result.{Result, ok, raise_if, ◌>>=◌}
use tsagent.Prelude.Text.{is_empty}
use tsagent.RuntimeStore.Errors.{StoreErrorCode, stale_writer, fence_conflict}
use tsagent.RuntimeStore.Sql.{fetch_one, update_where, insert_unique, text_gt}
use tsagent.RuntimeStore.Tables.{
  Database, SqliteRuntimeStore, RunHead, WorkerLease, FenceGrant, Host, head_of, fence_of, lease_of,
  checked, fenced, stored,
}
use tsagent.RuntimeStore.Transaction.{
  Transaction, require_text, require_writer, check_generation, fetch_head, transact,
}
use tsagent.RuntimeStore.Leases.{
  put_worker_lease, assert_session_run_available, renew_worker_lease_tx,
}

-- The row that `initialize_run` inserts
abbrev pub fresh_head : Host → String → String → String → String → String → String → RunHead
fresh_head host generation tenant session run request status = record {
  tenant_id = tenant;
  session_id = session;
  run_id = run;
  request_id = request;
  current_revision = 0;
  current_digest = "";
  current_writer_id = "";
  current_fence_token = 0;
  store_generation = generation;
  run_status = status;
  updated_at = host.now stored;
}

-- the transaction of `initialize_run`: a Run that exists is read again
unfoldable pub initialize_run_tx :
    Host → String → String → String → String → String → String → Transaction RunHead
initialize_run_tx host generation tenant session run request status db =
    if any (head_of tenant run) db.run_heads
    then (fetch_head generation db tenant run (some session) >>= λ h. ok (db, h))
    else (let db' = record db {
      run_heads = db.run_heads ++ fresh_head host generation tenant session run request status ∷ [];
    } in
        fetch_head generation db' tenant run (some session) >>= λ h. ok (db', h))

-- `initialize_run`
unfoldable pub initialize_run :
    Host
    → SqliteRuntimeStore
    → String
    → String
    → String
    → String
    → String
    → Option String
    → SqliteRuntimeStore × Result StoreErrorCode RunHead
initialize_run host s tenant_id session_id run_id request_id run_status expected_generation =
    transact host s
      (require_text tenant_id >>= λ tenant. require_text session_id >>= λ session.
        require_text run_id >>= λ run. require_text run_status >>= λ status.
        check_generation s.store_generation expected_generation >>= λ _.
        ok (tenant, session, run, status))
      (λ (tenant, session, run, status).
        initialize_run_tx host s.store_generation tenant session run request_id status)

-- `_insert_fence_tx`
unfoldable pub insert_fence :
    Host → String → String → String → String → ℕ → Database → Result StoreErrorCode Database
insert_fence host tenant session run writer token db =
    insert_unique
      (λ f. fence_of tenant run f && (nat_eq f.fence_token token || nat_eq f.fence_epoch token))
      (record {
        tenant_id = tenant;
        session_id = session;
        run_id = run;
        writer_id = writer;
        fence_token = token;
        fence_epoch = token;
        acquired_at = host.now fenced;
        released_at = none;
      })
      db.run_fences
    >>= λ fences. ok (record db { run_fences = fences })

abbrev pub grant_of : String → String → String → String → String → ℕ → ℕ → Bool → FenceGrant
grant_of generation tenant session run writer token revision idempotent = record {
  tenant_id = tenant;
  session_id = session;
  run_id = run;
  writer_id = writer;
  fence_token = token;
  fence_epoch = token;
  run_revision = revision;
  store_generation = generation;
  idempotent = idempotent;
}

-- the update of the head that hands the fence to a writer, where `unowned` is asked of the row
abbrev pub hand_over :
    Host → String → String → String → String → ℕ → (RunHead → Bool) → List RunHead → List RunHead
hand_over host tenant run writer request token unowned heads =
    update_where (λ h. head_of tenant run h && nat_eq h.current_fence_token token && unowned h)
      (λ h. record h {
        current_writer_id = writer;
        current_fence_token = suc token;
        request_id = request;
        updated_at = host.now checked;
      })
      heads

-- The last part of `acquire_fence` and `takeover_fence`: the next token goes to the writer.
unfoldable pub grant_fence :
    Host
    → String
    → String
    → String
    → String
    → String
    → String
    → Bool
    → RunHead
    → (RunHead → Bool)
    → Transaction FenceGrant
grant_fence host generation tenant session run writer request worker_lease row unowned db =
    let token = suc row.current_fence_token in
    insert_fence host tenant session run writer token db >>= λ db1.
    let db2 = record db1 {
      run_heads =
          hand_over host tenant run writer request row.current_fence_token unowned db1.run_heads;
    } in
    ok (
      if worker_lease then put_worker_lease host tenant session run writer token db2 else db2,
      grant_of generation tenant session run writer token row.current_revision false,
    )

-- `if worker_lease: ...` around a statement
abbrev pub under_lease :
    Bool → (Database → Result StoreErrorCode Database) → Database → Result StoreErrorCode Database
under_lease worker_lease statement db = if worker_lease then statement db else ok db

-- `expected not in (None, 0, current_token)`
abbrev is_foreign_token : Option ℤ → ℕ → Bool
is_foreign_token none token = false
is_foreign_token (some n) token = not (is_zero n) && not (int_eq (pos token) n)

abbrev pub is_live : Host → Option WorkerLease → Bool
is_live host none = false
is_live host (some l) = text_gt l.expires_at (host.now checked)

abbrev differs : Option ℤ → ℕ → Bool
differs none token = false
differs (some n) token = not (int_eq (pos token) n)

-- the transaction of `acquire_fence`
unfoldable pub acquire_fence_tx :
    Host
    → String
    → String
    → String
    → String
    → String
    → Option ℤ
    → String
    → Bool
    → Transaction FenceGrant
acquire_fence_tx host generation tenant session run writer expected request worker_lease db =
    fetch_head generation db tenant run (some session) >>= λ row.
    under_lease worker_lease (assert_session_run_available host generation tenant session run) db
    >>= λ db1.
        (let token = row.current_fence_token in
          if row.current_writer_id == writer && ltb 0 token
          then raise_if (is_foreign_token expected token) stale_writer (
              under_lease worker_lease
                (renew_worker_lease_tx host tenant session run writer (pos token)) db1
              >>= λ db2. ok (
                db2,
                grant_of generation tenant session run writer token row.current_revision true,
              ))
          else raise_if (not (is_empty row.current_writer_id)) fence_conflict (
              raise_if
                (worker_lease
                  && is_live host (fetch_one (lease_of tenant run) db1.run_worker_leases))
                fence_conflict
                (raise_if (differs expected token) stale_writer (
                  grant_fence host generation tenant session run writer request worker_lease row
                    (λ h. h.current_writer_id == "") db1))))

-- `acquire_fence`
unfoldable pub acquire_fence :
    Host
    → SqliteRuntimeStore
    → String
    → String
    → String
    → String
    → Option ℤ
    → String
    → Option String
    → Bool
    → SqliteRuntimeStore × Result StoreErrorCode FenceGrant
acquire_fence host s tenant_id session_id run_id writer_id expected request_id expected_generation
      worker_lease =
    transact host s
      (require_writer tenant_id session_id run_id writer_id >>= λ scope.
        check_generation s.store_generation expected_generation >>= λ _. ok scope)
      (λ (tenant, session, run, writer).
        acquire_fence_tx host s.store_generation tenant session run writer expected request_id
          worker_lease)
