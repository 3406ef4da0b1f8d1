-- ===== src/RuntimeStore/Revisions/Checks.antt =====
-- What a write has passed when the head of its Run has been validated.
use tsagent.Prelude.{String, ◌≡◌, true, false, some, ◌==◌, arith}
use tsagent.Prelude.Int.{pos, int_eq}
use tsagent.Prelude.Result.{ok}
use tsagent.RuntimeStore.Sql.{fetch_one}
use tsagent.RuntimeStore.Tables.{Database, RunHead, head_of}
use tsagent.RuntimeStore.Transaction.{fetch_head}
use tsagent.RuntimeStore.Leases.{is_stale}
use tsagent.RuntimeStore.Revisions.{RevisionCall, validate_write_head}

pub validate_write_head-ok :
    (generation : String) (c : RevisionCall) (row : RunHead) (db : Database)
    → validate_write_head generation c.tenant_id c.session_id c.run_id c.writer_id c.fence_token
        c.expected_revision c.expected_parent_digest c.expected_store_generation db
      ≡ ok row
    → (fetch_one (head_of c.tenant_id c.run_id) db.run_heads ≡ some row)
      × (is_stale c.writer_id c.fence_token row ≡ false)
      × (int_eq (pos row.current_revision) c.expected_revision ≡ true)
      × ((row.current_digest == c.expected_parent_digest) ≡ true)
unfolding validate_write_head fetch_head
validate_write_head-ok generation c row db h =
    (ground arith, ground arith, ground arith, ground arith)
