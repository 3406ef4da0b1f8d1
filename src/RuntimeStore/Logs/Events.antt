-- ===== src/RuntimeStore/Logs/Events.antt =====
-- The logs of events through every transaction and every sequence of calls.
use mathlib.Core.Path.{subst, subst₂}
use tsagent.RuntimeStore.EventReads.{retention_floor_tx, with_floor, floor_row, latest_of, floor_of}
use tsagent.Prelude.{
  ltb, ◌||◌, ℕ, suc, String, ◌≡◌, false, Option, none, some, List, [], ◌∷◌, ◌++◌, refl, arith, ◌==◌,
  ◌&&◌, not, nat_eq, sym,
}
use tsagent.Prelude.Lists.{select}
use tsagent.Prelude.Ensures.{Ensures, Ensures-bind, Ensures-elim, Ensures-raise_if}
use tsagent.RuntimeStore.Sql.{fetch_one, count_where}
use tsagent.RuntimeStore.Sql.Laws.{fetch_one-update_where, fetch_one-append}
use tsagent.RuntimeStore.Revisions.{RevisionCall, append_revision_tx}
use tsagent.RuntimeStore.Calls.{Call, perform, run_calls}
use tsagent.RuntimeStore.Calls.Steps.{perform-step}
use tsagent.RuntimeStore.Logs.{SameLogs}
use tsagent.RuntimeStore.Logs.Frame.{kept_steps}
use tsagent.RuntimeStore.Tables.{
  stored, SqliteRuntimeStore, empty_database, Database, EventRow, DurableEventRecord, EventHeadRow,
  Host, event_of, event_head_of,
}
use tsagent.RuntimeStore.Events.{
  EventDraft, with_event_head, event_row, blocks, latest_event, append_event_tx, store_event,
  reloaded, insert_event, is_same_event,
}
use tsagent.RuntimeStore.Transaction.{fetch_head}
use tsagent.RuntimeStore.Errors.{
  StoreErrorCode, revision_conflict, invalid_argument, idempotency_conflict,
}
use tsagent.Prelude.Result.{ok, raise_if}
use tsagent.RuntimeStore.Logs.EventLogs.{
  EventLog, start, events_of, latest_sequence_of, HasLogs, stored_event, stored-HasLog,
}

reloaded-HasLogs :
    (db : Database) (o : Option EventRow) → HasLogs db → Ensures (λ y. HasLogs y.0) (reloaded db o)
reloaded-HasLogs db none logs = tt
reloaded-HasLogs db (some e) logs = logs

inserted :
    (host : Host) (d : EventDraft) (n : ℕ) (rows events : List EventRow)
    → insert_event host d n rows ≡ ok events
    → events ≡ rows ++ event_row host d (suc n) ∷ []
inserted host d n rows events h = ground arith

store_event-HasLogs :
    (host : Host) (d : EventDraft) (db : Database) (o : Option EventHeadRow)
    → fetch_one (event_head_of d.tenant_id d.run_id) (with_event_head host d db.run_event_heads) ≡ o
    → blocks (latest_event db d) d.event_type ≡ false
    → HasLogs db
    → Ensures
        (λ y. HasLogs y.0)
        (store_event host d db (with_event_head host d db.run_event_heads) o)
unfolding store_event
store_event-HasLogs host d db none found free logs = tt
store_event-HasLogs host d db (some h) found free logs =
    let stored = λ (tenant run : String).
      stored-HasLog host d db h found free tenant run (logs d.tenant_id d.run_id)
        (logs tenant run) in
    Ensures-bind (λ y. HasLogs y.0) (insert_event host d h.latest_sequence db.run_events) _
      (λ events e.
        let db' = record (stored_event host d db h) { run_events = events } in
        let logs' =
          subst (λ es. HasLogs (record (stored_event host d db h) { run_events = es }))
            (sym (inserted host d h.latest_sequence db.run_events events e)) stored in
        let again =
          fetch_one
            (λ e.
              event_of d.tenant_id d.run_id e
              && nat_eq e.event.sequence_number (suc h.latest_sequence))
            events in
        let heads = with_event_head host d db.run_event_heads in
        let current = λ (x : EventHeadRow).
          event_head_of d.tenant_id d.run_id x && nat_eq x.latest_sequence h.latest_sequence in
        Ensures-raise_if {E = StoreErrorCode} {A = Database × DurableEventRecord} (λ y. HasLogs y.0)
          (not (nat_eq (count_where current heads) 1)) revision_conflict (reloaded db' again)
          (λ one. reloaded-HasLogs db' again logs'))

append_event_tx-HasLogs :
    (host : Host) (g : String) (d : EventDraft) (db : Database)
    → HasLogs db
    → Ensures (λ y. HasLogs y.0) (append_event_tx host g d db)
unfolding append_event_tx
append_event_tx-HasLogs host g d db logs =
    let P = λ (y : Database × DurableEventRecord). HasLogs y.0 in
    let heads = with_event_head host d db.run_event_heads in
    Ensures-bind P (fetch_head g db d.tenant_id d.run_id (some d.session_id)) _ (λ row e.
      Ensures-elim P
        (fetch_one (λ e. event_of d.tenant_id d.run_id e && e.event.event_id == d.event_id)
          db.run_events)
        _
        (λ existing.
          raise_if (not (is_same_event existing.event d)) idempotency_conflict
            (ok (db, existing.event)))
        (λ absent.
          Ensures-raise_if P (blocks (latest_event db d) d.event_type) invalid_argument
            (store_event host d db heads (fetch_one (event_head_of d.tenant_id d.run_id) heads))
            (λ free.
              store_event-HasLogs host d db (fetch_one (event_head_of d.tenant_id d.run_id) heads)
                refl free logs))
        (λ existing present.
          Ensures-raise_if P (not (is_same_event existing.event d)) idempotency_conflict
            (ok (db, existing.event)) (λ same. logs)))

same-HasLogs : (db db' : Database) → SameLogs db db' → HasLogs db → HasLogs db'
same-HasLogs db db' (r, h, e) logs tenant run =
    let (latest, l) = logs tenant run in
    (
      latest,
      subst₂ (λ es hs. EventLog (events_of tenant run es) (latest_sequence_of tenant run hs) latest)
          (sym e) (sym h) l,
    )

append_revision_tx-HasLogs :
    (host : Host) (g : String) (c : RevisionCall) (j : String) (db : Database)
    → HasLogs db
    → Ensures (λ y. HasLogs y.0) (append_revision_tx host g c j db)
unfolding append_revision_tx
append_revision_tx-HasLogs host g c j db logs = ground arith

-- The floor of the cursors leaves the numbers as they are.
latest-with_floor :
    (host : Host) (t x r : String) (n : ℕ) (tenant run : String) (heads : List EventHeadRow)
    → latest_sequence_of tenant run (with_floor host t x r n heads)
      ≡ latest_sequence_of tenant run heads
latest-with_floor host t x r n tenant run heads = ground (
  arith,
  fetch_one-update_where (event_head_of tenant run) (event_head_of t r)
      (λ h. record h { retained_from_sequence = n; updated_at = host.now stored }) heads
      (λ h. refl),
  fetch_one-append (event_head_of tenant run) heads (floor_row host t x r n),
)

retention_floor_tx-HasLogs :
    (host : Host) (g t x r : String) (n : ℕ) (db : Database)
    → HasLogs db
    → Ensures (λ y. HasLogs y.0) (retention_floor_tx host g t x r n db)
unfolding retention_floor_tx
retention_floor_tx-HasLogs host g t x r n db logs =
    let P = λ (y : Database × Unit). HasLogs y.0 in
    let db' = record db { run_event_heads = with_floor host t x r n db.run_event_heads } in
    Ensures-bind P (fetch_head g db t r (some x)) _ (λ head e.
      Ensures-raise_if P
        (ltb (latest_of (fetch_one (event_head_of t r) db.run_event_heads)) n
          || ltb n (floor_of (fetch_one (event_head_of t r) db.run_event_heads)))
        invalid_argument (ok (db', tt))
        (λ f tenant run.
          let (latest, l) = logs tenant run in
          (
            latest,
            subst (λ k. EventLog (events_of tenant run db.run_events) k latest)
                (sym (latest-with_floor host t x r n tenant run db.run_event_heads)) l,
          )))

perform-HasLogs :
    (host : Host) (s : SqliteRuntimeStore) (c : Call)
    → HasLogs s.database
    → HasLogs (perform host s c).database
perform-HasLogs host s c =
    perform-step (λ db db'. HasLogs db → HasLogs db')
      (kept_steps HasLogs same-HasLogs append_event_tx-HasLogs append_revision_tx-HasLogs
        retention_floor_tx-HasLogs)
      host s c

-- In whatever order calls of whatever writers reach a store, its events stay well logged: those of a
-- Run are numbered 1, 2, and so on up to its `latest_sequence`, in the order of their insertion, and
-- behind an event that ends the Run there is none, save `run_resumed` behind `run_blocked`.
pub run_calls-HasLogs :
    (s : SqliteRuntimeStore) (calls : List (Host × Call))
    → HasLogs s.database
    → HasLogs (run_calls s calls).database
unfolding run_calls
run_calls-HasLogs s [] logs = logs
run_calls-HasLogs s ((host, c) ∷ calls) logs =
    run_calls-HasLogs (perform host s c) calls (perform-HasLogs host s c logs)

-- A database just created has empty logs.
pub fresh-HasLogs : HasLogs empty_database
unfolding select fetch_one
fresh-HasLogs tenant run = (none, start)
