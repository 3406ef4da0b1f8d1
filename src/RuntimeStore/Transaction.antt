-- ===== src/RuntimeStore/Transaction.antt =====
-- agent/runtime_store/sqlite.py: texts and payloads of a call, the transaction around a write, and
-- the row of a Run that every write reads first.
use tsagent.Prelude.{
  String, Bool, true, false, Option, none, some, not, ◌==◌, ◌&&◌, ◌||◌, ◌≡◌, arith, if◌then◌else◌,
}
use tsagent.Prelude.Lists.{any}
use tsagent.Prelude.Result.{Result, ok, err, raise_if, ◌>>=◌}
use tsagent.Prelude.Text.{strip, is_empty}
use tsagent.Checkpoint.Json.{
  Json, Items, Fields, float, array, object, set, frozen_set, nil, cons, end, field,
}
use tsagent.RuntimeStore.Errors.{
  StoreErrorCode, invalid_argument, store_closed, store_busy, store_generation_mismatch,
  identity_mismatch, run_not_found,
}
use tsagent.RuntimeStore.Sql.{fetch_one}
use tsagent.RuntimeStore.Tables.{Database, SqliteRuntimeStore, RunHead, Host, head_of}

-- `_require_text`
unfoldable pub require_text : String → Result StoreErrorCode String
require_text value =
    let result = strip value in raise_if (is_empty result) invalid_argument (ok result)

-- An optional text that the callers test by `None if x is None else _require_text(x, ...)`
unfoldable pub require_optional : Option String → Result StoreErrorCode (Option String)
require_optional none = ok none
require_optional (some value) = require_text value >>= λ result. ok (some result)

-- `validate` of `_canonical_json`: a float is kept by its `repr`. Keys are texts and every value is
-- JSON by the type of the argument.
unfoldable mutual
  pub is_json : Json → Bool
  is_json (float repr) = not (repr == "nan" || repr == "inf" || repr == "-inf")
  is_json (array xs) = are_json xs
  is_json (object fs) = are_json_fields fs
  is_json (set xs) = false
  is_json (frozen_set xs) = false
  is_json _ = true

  pub are_json : Items → Bool
  are_json nil = true
  are_json (cons x xs) = is_json x && are_json xs

  pub are_json_fields : Fields → Bool
  are_json_fields end = true
  are_json_fields (field k v fs) = is_json v && are_json_fields fs

-- `_canonical_json`
unfoldable pub canonical_json : Host → Json → Result StoreErrorCode String
canonical_json host value = raise_if (not (is_json value)) invalid_argument (ok (host.dumps value))

-- `_check_generation`
unfoldable pub check_generation : String → Option String → Result StoreErrorCode Unit
check_generation generation none = ok tt
check_generation generation (some expected) =
    raise_if (not (expected == generation)) store_generation_mismatch (ok tt)

-- The texts that every call of a writer begins with
unfoldable pub require_writer :
    String → String → String → String → Result StoreErrorCode (String × String × String × String)
require_writer tenant_id session_id run_id writer_id = require_text tenant_id >>= λ tenant.
    require_text session_id >>= λ session. require_text run_id >>= λ run.
    require_text writer_id >>= λ writer. ok (tenant, session, run, writer)

-- What a statement inside a transaction does: the database behind it and its value, or an error.
abbrev pub Transaction : Type 0 → Type 0
Transaction A = Database → Result StoreErrorCode (Database × A)

module _ {A : Type 0} where
  -- COMMIT of what the body left, or ROLLBACK
  abbrev pub commit :
      SqliteRuntimeStore
      → Result StoreErrorCode (Database × A)
      → SqliteRuntimeStore × Result StoreErrorCode A
  commit s (ok (db, a)) = (record s { database = db }, ok a)
  commit s (err e) = (s, err e)

  -- `_write_transaction`
  unfoldable pub write_transaction :
      Host → SqliteRuntimeStore → Transaction A → SqliteRuntimeStore × Result StoreErrorCode A
  write_transaction host s body =
      if s.closed
      then (s, err store_closed)
      else if host.busy
      then (s, err store_busy)
      else commit s (body s.database)

module _ {A B : Type 0} where
  -- A method: it validates its arguments, then runs its transaction.
  unfoldable pub transact :
      Host
      → SqliteRuntimeStore
      → Result StoreErrorCode B
      → (B → Transaction A)
      → SqliteRuntimeStore × Result StoreErrorCode A
  transact host s (err e) body = (s, err e)
  transact host s (ok b) body = write_transaction host s (body b)

-- `session_id is not None and row["session_id"] != session_id`
abbrev pub other_session : Option String → RunHead → Bool
other_session none h = false
other_session (some session) h = not (h.session_id == session)

-- `_fetch_head_tx`
unfoldable pub fetch_head :
    String → Database → String → String → Option String → Result StoreErrorCode RunHead
fetch_head generation db tenant run session = elim (fetch_one (head_of tenant run) db.run_heads) [
  | none ↦ raise_if (any (λ h. h.run_id == run) db.run_heads) identity_mismatch (err run_not_found)
  | some h ↦
      raise_if (other_session session h) identity_mismatch
        (raise_if (not (h.store_generation == generation)) store_generation_mismatch (ok h))
]

-- The head that a call reads is the row of its Run.
pub fetch_head-found :
    (generation : String) (db : Database) (tenant run : String) (session : Option String)
    (h : RunHead)
    → fetch_head generation db tenant run session ≡ ok h
    → fetch_one (head_of tenant run) db.run_heads ≡ some h
unfolding fetch_head
fetch_head-found generation db tenant run session h e = ground arith

-- A text that has been required is the argument without its outer spaces, and not empty.
pub require_text-strip : (value : String) {t : String} → require_text value ≡ ok t → t ≡ strip value
unfolding require_text
require_text-strip value h = ground arith

pub require_text-seen :
    (value : String) {t : String} → require_text value ≡ ok t → is_empty (strip value) ≡ false
unfolding require_text
require_text-seen value h = ground arith
