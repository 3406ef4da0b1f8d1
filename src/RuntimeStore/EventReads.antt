-- ===== src/RuntimeStore/EventReads.antt =====
-- agent/runtime_store/sqlite.py: the events of a Run read behind a cursor, the head of its events,
-- and the floor below which a cursor has expired.
pub mod Cursor
use tsagent.Prelude.{
  ℕ, zero, suc, String, Bool, true, false, Option, none, some, List, [], ◌∷◌, ◌++◌, not, ◌==◌, ◌&&◌,
  ◌||◌, ltb, map, if◌then◌else◌,
}
use tsagent.Prelude.Int.{ℤ, pos, negsuc}
use tsagent.Prelude.Lists.{any, select}
use tsagent.Prelude.Result.{Result, ok, err, raise_if, ◌>>=◌}
use tsagent.Prelude.Text.{contains}
use tsagent.RuntimeStore.Errors.{
  StoreErrorCode, invalid_argument, store_closed, event_cursor_expired,
}
use tsagent.RuntimeStore.Sql.{fetch_one, update_where, greatest}
use tsagent.RuntimeStore.Tables.{
  Database, SqliteRuntimeStore, EventRow, EventHeadRow, DurableEventRecord, Host, event_of,
  event_head_of, stored,
}
use tsagent.RuntimeStore.Transaction.{
  Transaction, require_text, require_optional, fetch_head, transact,
}
use tsagent.RuntimeStore.Events.{terminal_events, revision_argument}

pub record DurableEventHead : Type 0 where
  pub tenant_id : String
  pub session_id : String
  pub run_id : String
  pub latest_sequence : ℕ
  pub retained_from_sequence : ℕ
  pub terminal_sequence : Option ℕ

abbrev pub latest_of : Option EventHeadRow → ℕ
latest_of none = 0
latest_of (some h) = h.latest_sequence

abbrev pub floor_of : Option EventHeadRow → ℕ
floor_of none = 0
floor_of (some h) = h.retained_from_sequence

abbrev number_of : Option EventRow → Option ℕ
number_of none = none
number_of (some e) = some e.event.sequence_number

abbrev number_or_zero : Option EventRow → ℕ
number_or_zero none = 0
number_or_zero (some e) = e.event.sequence_number

-- `COALESCE(MAX(sequence_number), 0)` of the events that resumed the Run
abbrev last_resumption : String → String → List EventRow → ℕ
last_resumption tenant run rows = number_or_zero (
    greatest (λ e. e.event.sequence_number)
      (select (λ e. event_of tenant run e && e.event.event_type == "run_resumed") rows))

-- the newest event behind the last resumption that ends the Run
unfoldable pub terminal_event : String → String → List EventRow → Option EventRow
terminal_event tenant run rows =
    let resumed = last_resumption tenant run rows in
    greatest (λ e. e.event.sequence_number)
      (select
        (λ e.
          event_of tenant run e
          && ltb resumed e.event.sequence_number
          && contains terminal_events e.event.event_type)
        rows)

-- `get_event_head`
unfoldable pub get_event_head :
    SqliteRuntimeStore → String → String → Option String → Result StoreErrorCode DurableEventHead
get_event_head s tenant_id run_id session_id = require_text tenant_id >>= λ tenant.
    require_text run_id >>= λ run. require_optional session_id >>= λ session.
    raise_if s.closed store_closed (
      fetch_head s.store_generation s.database tenant run session >>= λ head.
      let row = fetch_one (event_head_of tenant run) s.database.run_event_heads in
      ok (record {
        tenant_id = tenant;
        session_id = head.session_id;
        run_id = run;
        latest_sequence = latest_of row;
        retained_from_sequence = floor_of row;
        terminal_sequence = number_of (terminal_event tenant run s.database.run_events);
      }))

-- `ORDER BY sequence_number ASC`
unfoldable pub insert_by_number : EventRow → List EventRow → List EventRow
insert_by_number e [] = e ∷ []
insert_by_number e (f ∷ fs) =
    let rest = insert_by_number e fs in
    if ltb f.event.sequence_number e.event.sequence_number then f ∷ rest else e ∷ f ∷ fs

unfoldable pub order_by_number : List EventRow → List EventRow
order_by_number [] = []
order_by_number (e ∷ es) = insert_by_number e (order_by_number es)

-- `LIMIT n`
unfoldable pub take : ℕ → List EventRow → List EventRow
take zero es = []
take (suc n) [] = []
take (suc n) (e ∷ es) = e ∷ take n es

abbrev pub limited : Option ℕ → List EventRow → List EventRow
limited none es = es
limited (some n) es = take n es

-- `limit`: less than 1 is refused.
abbrev pub limit_argument : Option ℤ → Result StoreErrorCode (Option ℕ)
limit_argument none = ok none
limit_argument (some (pos zero)) = err invalid_argument
limit_argument (some (pos (suc n))) = ok (some (suc n))
limit_argument (some (negsuc n)) = err invalid_argument

-- the rows of the query
abbrev pub rows_after : String → String → ℕ → Option ℕ → List EventRow → List EventRow
rows_after tenant run after limit rows = limited limit (
    order_by_number (select (λ e. event_of tenant run e && ltb after e.event.sequence_number) rows))

-- `read_events`
unfoldable pub read_events :
    SqliteRuntimeStore
    → String
    → String
    → String
    → ℤ
    → Option ℤ
    → Result StoreErrorCode (List DurableEventRecord)
read_events s tenant_id run_id session_id after_sequence limit =
    require_text tenant_id >>= λ tenant. require_text session_id >>= λ session.
    require_text run_id >>= λ run. revision_argument after_sequence >>= λ after.
    limit_argument limit >>= λ most. raise_if s.closed store_closed (
      fetch_head s.store_generation s.database tenant run (some session) >>= λ head.
      let row = fetch_one (event_head_of tenant run) s.database.run_event_heads in
      raise_if (ltb after (floor_of row)) event_cursor_expired (
        ok (
          if ltb (latest_of row) after
          then []
          else map (λ e. e.event) (rows_after tenant run after most s.database.run_events))))

-- the row that a floor adds where the Run has none
abbrev pub floor_row : Host → String → String → String → ℕ → EventHeadRow
floor_row host tenant session run floor = record {
  tenant_id = tenant;
  session_id = session;
  run_id = run;
  latest_sequence = 0;
  retained_from_sequence = floor;
  updated_at = host.now stored;
}

-- `INSERT ... ON CONFLICT DO UPDATE` of the floor
abbrev pub with_floor : Host → String → String → String → ℕ → List EventHeadRow → List EventHeadRow
with_floor host tenant session run floor heads =
    if any (event_head_of tenant run) heads
    then update_where (event_head_of tenant run)
        (λ h. record h { retained_from_sequence = floor; updated_at = host.now stored }) heads
    else heads ++ floor_row host tenant session run floor ∷ []

-- the transaction of `set_event_retention_floor`
unfoldable pub retention_floor_tx : Host → String → String → String → String → ℕ → Transaction Unit
retention_floor_tx host generation tenant session run floor db =
    fetch_head generation db tenant run (some session) >>= λ head.
    let row = fetch_one (event_head_of tenant run) db.run_event_heads in
    raise_if (ltb (latest_of row) floor || ltb floor (floor_of row)) invalid_argument (
      ok (
        record db { run_event_heads = with_floor host tenant session run floor db.run_event_heads },
        tt,
      ))

-- `set_event_retention_floor`
unfoldable pub set_event_retention_floor :
    Host
    → SqliteRuntimeStore
    → String
    → String
    → String
    → ℤ
    → SqliteRuntimeStore × Result StoreErrorCode Unit
set_event_retention_floor host s tenant_id session_id run_id retained_from_sequence =
    transact host s
      (require_text tenant_id >>= λ tenant. require_text session_id >>= λ session.
        require_text run_id >>= λ run.
        revision_argument retained_from_sequence >>= λ floor. ok (tenant, session, run, floor))
      (λ (tenant, session, run, floor).
        retention_floor_tx host s.store_generation tenant session run floor)
