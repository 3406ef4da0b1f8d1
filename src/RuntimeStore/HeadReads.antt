-- ===== src/RuntimeStore/HeadReads.antt =====
-- agent/runtime_store/sqlite.py: the head of a Run and its current fence, read outside a transaction.
use tsagent.Prelude.{
  String, ◌≡◌, false, Option, none, some, not, ◌==◌, ◌||◌, arith, nat_eq, if◌then◌else◌, refl,
}
use tsagent.Prelude.Result.{Result, ok, err, raise_if, ◌>>=◌}
use tsagent.Prelude.Text.{is_empty}
use tsagent.RuntimeStore.Errors.{
  StoreErrorCode, store_closed, identity_mismatch, store_generation_mismatch, run_not_found,
}
use tsagent.RuntimeStore.Sql.{fetch_one}
use tsagent.RuntimeStore.Tables.{SqliteRuntimeStore, RunHead, FenceGrant, head_of}
use tsagent.RuntimeStore.Transaction.{require_text, require_optional, other_session}
use tsagent.RuntimeStore.Fences.{grant_of}

-- the checks of a row that was found
abbrev seen_head : String → Option String → Option RunHead → Result StoreErrorCode (Option RunHead)
seen_head generation session none = ok none
seen_head generation session (some h) =
    raise_if (other_session session h) identity_mismatch
      (raise_if (not (h.store_generation == generation)) store_generation_mismatch (ok (some h)))

-- `get_run_head`: a Run of another tenant is no Run.
unfoldable get_run_head :
    SqliteRuntimeStore → String → String → Option String → Result StoreErrorCode (Option RunHead)
get_run_head s tenant_id run_id session_id = require_text tenant_id >>= λ tenant.
    require_text run_id >>= λ run. require_optional session_id >>= λ session.
    raise_if s.closed store_closed
      (seen_head s.store_generation session (fetch_one (head_of tenant run) s.database.run_heads))

abbrev current_grant : Option RunHead → Result StoreErrorCode (Option FenceGrant)
current_grant none = err run_not_found
current_grant (some h) =
    if is_empty h.current_writer_id || nat_eq h.current_fence_token 0
    then ok none
    else ok (
        some (
          grant_of h.store_generation h.tenant_id h.session_id h.run_id h.current_writer_id
            h.current_fence_token h.current_revision false))

-- `get_current_fence`
unfoldable get_current_fence :
    SqliteRuntimeStore → String → String → Option String → Result StoreErrorCode (Option FenceGrant)
get_current_fence s tenant_id run_id session_id =
    get_run_head s tenant_id run_id session_id >>= λ head. current_grant head

by_head :
    (m : Result StoreErrorCode (Option RunHead)) (a : FenceGrant)
    → (m >>= λ head. current_grant head) ≡ ok (some a)
    → (h : RunHead) × (m ≡ ok (some h))
      × (a.writer_id ≡ h.current_writer_id)
      × (a.fence_token ≡ h.current_fence_token)
      × (is_empty a.writer_id ≡ false)
by_head (err x) a e = absurd cc
by_head (ok none) a e = absurd cc
by_head (ok (some h)) a e = (h, refl, ground arith, ground arith, ground arith)

-- The fence that is shown is the one that the head records: its writer and its token.
get_current_fence_lem :
    (s : SqliteRuntimeStore) (tenant run : String) (session : Option String) (a : FenceGrant)
    → get_current_fence s tenant run session ≡ ok (some a)
    → (h : RunHead) × (get_run_head s tenant run session ≡ ok (some h))
      × (a.writer_id ≡ h.current_writer_id)
      × (a.fence_token ≡ h.current_fence_token)
      × (is_empty a.writer_id ≡ false)
unfolding get_current_fence
get_current_fence_lem s tenant run session a e = by_head (get_run_head s tenant run session) a e
