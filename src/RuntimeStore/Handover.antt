-- ===== src/RuntimeStore/Handover.antt =====
-- agent/runtime_store/sqlite.py: the fence of a Run taken over by another writer, and released.
use tsagent.Prelude.{
  String, Bool, true, false, Option, none, some, List, not, ◌==◌, ◌&&◌, is_some, nat_eq, ltb,
  if◌then◌else◌,
}
use tsagent.Prelude.Int.{ℤ, pos, int_eq}
use tsagent.Prelude.Result.{Result, ok, err, raise_if, ◌>>=◌}
use tsagent.Prelude.Text.{is_empty}
use tsagent.RuntimeStore.Errors.{StoreErrorCode, stale_writer, fence_conflict}
use tsagent.RuntimeStore.Sql.{fetch_one, update_where, delete_where}
use tsagent.RuntimeStore.Tables.{
  Database, SqliteRuntimeStore, RunHead, FenceRow, WorkerLease, FenceGrant, Host, head_of, fence_of,
  lease_of, checked, stored,
}
use tsagent.RuntimeStore.Transaction.{
  Transaction, require_writer, check_generation, fetch_head, transact,
}
use tsagent.RuntimeStore.Leases.{assert_session_run_available, renew_worker_lease_tx, is_stale}
use tsagent.RuntimeStore.Fences.{grant_of, grant_fence, under_lease, is_live}

-- What `takeover_fence` finds before it gives the fence away: the writer has it already, or a
-- conflict, or nothing against it.
pub data Standing : Type 0 where
  held contested vacant : Standing

-- the tests of `takeover_fence` behind the one of the token
unfoldable pub standing : Host → String → Bool → RunHead → Option WorkerLease → Standing
standing host writer true row (some l) =
    if is_live host (some l)
    then if l.writer_id == writer
        && nat_eq l.fence_token row.current_fence_token
        && row.current_writer_id == writer
      then held
      else contested
    else vacant
standing host writer true row none =
    if not (is_empty row.current_writer_id) && host.upper row.run_status == "RUNNING"
    then contested
    else vacant
standing host writer false row lease =
    if row.current_writer_id == writer && ltb 0 row.current_fence_token then held else vacant

-- `released_at = COALESCE(released_at, ?)` for a token that may be any integer
abbrev pub closed_fences : String → String → ℤ → String → List FenceRow → List FenceRow
closed_fences tenant run token now fences =
    update_where (λ f. fence_of tenant run f && int_eq (pos f.fence_token) token)
      (λ f. if is_some f.released_at then f else record f { released_at = some now }) fences

-- the transaction of `takeover_fence`
unfoldable pub takeover_fence_tx :
    Host → String → String → String → String → String → ℤ → String → Bool → Transaction FenceGrant
takeover_fence_tx host generation tenant session run writer expected request worker_lease db =
    fetch_head generation db tenant run (some session) >>= λ row.
    under_lease worker_lease (assert_session_run_available host generation tenant session run) db
    >>= λ db1.
        let token = row.current_fence_token in
        raise_if (not (int_eq (pos token) expected)) stale_writer
          (elim (standing host writer worker_lease row
            (fetch_one (lease_of tenant run) db1.run_worker_leases)) [
              | held ↦
                  under_lease worker_lease
                    (renew_worker_lease_tx host tenant session run writer (pos token)) db1
                  >>= λ db2. ok (
                    db2,
                    grant_of generation tenant session run writer token row.current_revision true,
                  )
              | contested ↦ err fence_conflict
              | vacant ↦
                  grant_fence host generation tenant session run writer request worker_lease row
                    (λ h. true)
                    (if ltb 0 token
                      then record db1 {
                        run_fences =
                            closed_fences tenant run (pos token) (host.now checked) db1.run_fences;
                      }
                      else db1)
            ])

-- `takeover_fence`
unfoldable pub takeover_fence :
    Host
    → SqliteRuntimeStore
    → String
    → String
    → String
    → String
    → ℤ
    → String
    → Option String
    → Bool
    → SqliteRuntimeStore × Result StoreErrorCode FenceGrant
takeover_fence host s tenant_id session_id run_id writer_id expected request_id expected_generation
      worker_lease =
    transact host s
      (require_writer tenant_id session_id run_id writer_id >>= λ scope.
        check_generation s.store_generation expected_generation >>= λ _. ok scope)
      (λ (tenant, session, run, writer).
        takeover_fence_tx host s.store_generation tenant session run writer expected request_id
          worker_lease)

-- `DELETE FROM run_worker_leases` of one writer and token
abbrev pub without_lease : String → String → String → String → ℤ → Database → Database
without_lease tenant session run writer token db = record db {
  run_worker_leases =
      delete_where
        (λ l.
          lease_of tenant run l
          && l.session_id == session
          && l.writer_id == writer
          && int_eq (pos l.fence_token) token)
        db.run_worker_leases;
}

-- Whether a row of `run_fences` says that the writer has released this fence before
abbrev pub was_released : String → Option FenceRow → Bool
was_released writer none = false
was_released writer (some f) = f.writer_id == writer && is_some f.released_at

-- the update of the head that gives the fence back
abbrev pub released_heads :
    Host → String → String → String → ℤ → String → List RunHead → List RunHead
released_heads host tenant run writer token request heads =
    update_where
      (λ h.
        head_of tenant run h
        && h.current_writer_id == writer
        && int_eq (pos h.current_fence_token) token)
      (λ h. record h { current_writer_id = ""; request_id = request; updated_at = host.now stored })
      heads

-- the transaction of `release_fence`
unfoldable pub release_fence_tx :
    Host → String → String → String → String → String → ℤ → String → Transaction Unit
release_fence_tx host generation tenant session run writer token request db =
    fetch_head generation db tenant run (some session) >>= λ row.
    if row.current_writer_id == ""
      && int_eq (pos row.current_fence_token) token
      && was_released writer
          (fetch_one (λ f. fence_of tenant run f && int_eq (pos f.fence_token) token) db.run_fences)
    then ok (without_lease tenant session run writer token db, tt)
    else raise_if (is_stale writer token row) stale_writer (
        ok (
          without_lease tenant session run writer token (record db {
            run_heads = released_heads host tenant run writer token request db.run_heads;
            run_fences = closed_fences tenant run token (host.now checked) db.run_fences;
          }),
          tt,
        ))

-- `release_fence`
unfoldable pub release_fence :
    Host
    → SqliteRuntimeStore
    → String
    → String
    → String
    → String
    → ℤ
    → String
    → Option String
    → SqliteRuntimeStore × Result StoreErrorCode Unit
release_fence host s tenant_id session_id run_id writer_id token request_id expected_generation =
    transact host s
      (require_writer tenant_id session_id run_id writer_id >>= λ scope.
        check_generation s.store_generation expected_generation >>= λ _. ok scope)
      (λ (tenant, session, run, writer).
        release_fence_tx host s.store_generation tenant session run writer token request_id)
