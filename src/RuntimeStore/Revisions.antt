-- ===== src/RuntimeStore/Revisions.antt =====
-- agent/runtime_store/sqlite.py: the revisions of a Run, each behind a comparison with its head.
pub mod Checks
use tsagent.Prelude.{
  ℕ, suc, String, Bool, true, false, Option, none, some, List, [], ◌∷◌, not, ◌==◌, ◌&&◌, ◌||◌,
  nat_eq,
}
use tsagent.Prelude.Int.{ℤ, pos, int_eq, is_positive, is_negative}
use tsagent.Prelude.Result.{Result, ok, err, raise_if, ◌>>=◌}
use tsagent.Checkpoint.Json.{Json}
use tsagent.RuntimeStore.Errors.{
  StoreErrorCode, stale_writer, revision_conflict, parent_digest_mismatch, invalid_argument,
}
use tsagent.RuntimeStore.Sql.{update_where, count_where, insert_unique}
use tsagent.RuntimeStore.Tables.{
  Database, SqliteRuntimeStore, RunHead, RevisionRecord, Host, head_of, revision_of, stored,
}
use tsagent.RuntimeStore.Transaction.{
  Transaction, require_text, require_optional, canonical_json, check_generation, fetch_head,
  transact,
}
use tsagent.RuntimeStore.Leases.{is_stale}

-- `_validate_write_head_tx`
unfoldable pub validate_write_head :
    String
    → String
    → String
    → String
    → String
    → ℤ
    → ℤ
    → String
    → Option String
    → Database
    → Result StoreErrorCode RunHead
validate_write_head generation tenant session run writer token revision parent expected_generation
      db =
    check_generation generation expected_generation >>= λ _.
    fetch_head generation db tenant run (some session) >>= λ row.
    raise_if (is_stale writer token row) stale_writer (
      raise_if (not (int_eq (pos row.current_revision) revision)) revision_conflict
        (raise_if (not (row.current_digest == parent)) parent_digest_mismatch (ok row)))

-- The arguments of `append_revision`
pub record RevisionCall : Type 0 where
  pub tenant_id : String
  pub session_id : String
  pub run_id : String
  pub request_id : String
  pub payload : Json
  pub writer_id : String
  pub fence_token : ℤ
  pub expected_revision : ℤ
  pub expected_parent_digest : String
  pub run_status : Option String
  pub expected_store_generation : Option String

-- `append_revision` up to the transaction: the call with the texts stripped, and the payload's text
unfoldable pub revision_draft :
    Host → String → RevisionCall → Result StoreErrorCode (RevisionCall × String)
revision_draft host generation c = require_text c.tenant_id >>= λ tenant.
    require_text c.session_id >>= λ session. require_text c.run_id >>= λ run.
    require_text c.writer_id >>= λ writer. require_text c.request_id >>= λ request.
    raise_if (is_negative c.expected_revision || not (is_positive c.fence_token)) invalid_argument (
      require_optional c.run_status >>= λ status. canonical_json host c.payload >>= λ payload_json.
      check_generation generation c.expected_store_generation >>= λ _. ok (
        record c {
          tenant_id = tenant;
          session_id = session;
          run_id = run;
          writer_id = writer;
          request_id = request;
          run_status = status;
        },
        payload_json,
      ))

abbrev status_or : Option String → RunHead → String
status_or none row = row.run_status
status_or (some status) row = status

abbrev pub revision_record : Host → RevisionCall → String → RunHead → RevisionRecord
revision_record host c payload_json row = record {
  tenant_id = c.tenant_id;
  session_id = c.session_id;
  run_id = c.run_id;
  revision = suc row.current_revision;
  parent_digest = row.current_digest;
  payload_json = payload_json;
  payload_digest = host.sha256 payload_json;
  request_id = c.request_id;
  writer_id = c.writer_id;
  fence_token = row.current_fence_token;
  created_at = host.now stored;
}

-- the condition of the update of the head
abbrev pub is_expected_head : RevisionCall → RunHead → Bool
is_expected_head c h =
    head_of c.tenant_id c.run_id h
    && int_eq (pos h.current_revision) c.expected_revision
    && not (is_stale c.writer_id c.fence_token h)

abbrev pub advanced_head : Host → RevisionCall → String → RunHead → RunHead → RunHead
advanced_head host c payload_json row h = record h {
  current_revision = suc row.current_revision;
  current_digest = host.sha256 payload_json;
  current_writer_id = c.writer_id;
  request_id = c.request_id;
  run_status = status_or c.run_status row;
  updated_at = host.now stored;
}

-- the insertion of the record
abbrev pub insert_revision :
    Host
    → RevisionCall
    → String
    → RunHead
    → List RevisionRecord
    → Result StoreErrorCode (List RevisionRecord)
insert_revision host c payload_json row rows =
    insert_unique
      (λ v. revision_of c.tenant_id c.run_id v && nat_eq v.revision (suc row.current_revision))
      (revision_record host c payload_json row) rows

-- the transaction of `append_revision`; the token of the record is the argument, which is that of
-- the head by then
unfoldable pub append_revision_tx :
    Host → String → RevisionCall → String → Transaction RevisionRecord
append_revision_tx host generation c payload_json db =
    validate_write_head generation c.tenant_id c.session_id c.run_id c.writer_id c.fence_token
      c.expected_revision c.expected_parent_digest c.expected_store_generation db
    >>= λ row. insert_revision host c payload_json row db.run_resume_revisions >>= λ revisions.
        raise_if (not (nat_eq (count_where (is_expected_head c) db.run_heads) 1)) revision_conflict
          (ok (
            record db {
              run_heads =
                  update_where (is_expected_head c) (advanced_head host c payload_json row)
                    db.run_heads;
              run_resume_revisions = revisions;
            },
            revision_record host c payload_json row,
          ))

-- `append_revision`
unfoldable pub append_revision :
    Host
    → SqliteRuntimeStore
    → RevisionCall
    → SqliteRuntimeStore × Result StoreErrorCode RevisionRecord
append_revision host s c =
    transact host s (revision_draft host s.store_generation c)
      (λ (c', payload_json). append_revision_tx host s.store_generation c' payload_json)
