-- ===== src/RuntimeStore/Ownership/Statements.antt =====
-- The statements that leave every head its owner.
use tsagent.Prelude.{String, ◌≡◌, Bool, Option, none, some, List, [], ◌∷◌, refl, ◌∙◌, arith, ap}
use tsagent.Prelude.Lists.{select}
use tsagent.Prelude.Int.{ℤ}
use tsagent.Prelude.Ensures.{Ensures, Ensures-bind, Ensures-raise_if, Ensures-ok, Ensures-weaken}
use tsagent.RuntimeStore.Sql.{order_by, fetch_one, update_where}
use tsagent.RuntimeStore.Tables.{
  Database, RunHead, EventHeadRow, DurableEventRecord, Host, head_of, event_head_of,
}
use tsagent.RuntimeStore.Transaction.{canonical_json}
use tsagent.RuntimeStore.Leases.{
  converge_orphaned_run, converge_rows, assert_session_run_available, renew_worker_lease_tx,
  lost_payload, lost_draft, is_rival,
}
use tsagent.RuntimeStore.Events.{EventDraft, append_event_tx, store_event, with_event_head}
use tsagent.RuntimeStore.Ownership.{ownership, owner_of}

abbrev pub KeepsHeads : Database → (Database × DurableEventRecord) → Type 0
KeepsHeads db r = r.0.run_heads ≡ db.run_heads

store_event-KeepsHeads :
    (host : Host) (d : EventDraft) (db : Database) (heads : List EventHeadRow)
    (o : Option EventHeadRow)
    → Ensures (KeepsHeads db) (store_event host d db heads o)
unfolding store_event
store_event-KeepsHeads host d db heads none = tt
store_event-KeepsHeads host d db heads (some head) = ground arith

pub append_event_tx-KeepsHeads :
    (host : Host) (generation : String) (d : EventDraft) (db : Database)
    → Ensures (KeepsHeads db) (append_event_tx host generation d db)
unfolding append_event_tx
append_event_tx-KeepsHeads host generation d db = ground (
  arith,
  store_event-KeepsHeads host d db (with_event_head host d db.run_event_heads)
      (fetch_one (event_head_of d.tenant_id d.run_id) (with_event_head host d db.run_event_heads)),
)

-- An update that touches neither the identity nor the owner of a head
pub ownership-update_where :
    (tenant run : String) (q : RunHead → Bool) (f : RunHead → RunHead) (heads : List RunHead)
    → ((h : RunHead) → head_of tenant run (f h) ≡ head_of tenant run h)
    → ((h : RunHead) → owner_of (f h) ≡ owner_of h)
    → ownership tenant run (update_where q f heads) ≡ ownership tenant run heads
unfolding fetch_one update_where
ownership-update_where tenant run q f [] k o = refl
ownership-update_where tenant run q f (h ∷ heads) k o =
    ground (arith, k h, o h, ownership-update_where tenant run q f heads k o)

-- The ownership of a Run in the second database is that in the first.
abbrev pub KeepsOwner : String → String → Database → Database → Type 0
KeepsOwner tenant run db db' =
    ownership tenant run db'.run_heads ≡ ownership tenant run db.run_heads

converge_orphaned_run-KeepsOwner :
    (tenant run : String) (host : Host) (generation scope session : String) (row : RunHead)
    (db : Database)
    → Ensures
        (KeepsOwner tenant run db)
        (converge_orphaned_run host generation scope session row db)
unfolding converge_orphaned_run canonical_json
converge_orphaned_run-KeepsOwner tenant run host generation scope session row db =
    Ensures-bind (KeepsOwner tenant run db) (canonical_json host lost_payload) _ (λ payload_json e.
      Ensures-bind (KeepsOwner tenant run db)
        (append_event_tx host generation (lost_draft host scope session row payload_json) db) _
        (λ a f.
          ownership-update_where tenant run _ _ _ (λ h. refl) (λ h. refl)
          ∙ ap (ownership tenant run) (
              Ensures-ok (KeepsHeads db) _
                (append_event_tx-KeepsHeads host generation
                  (lost_draft host scope session row payload_json) db)
                f)))

converge_rows-KeepsOwner :
    (tenant run : String) (host : Host) (generation scope session : String) (rows : List RunHead)
    (db : Database)
    → Ensures (KeepsOwner tenant run db) (converge_rows host generation scope session rows db)
unfolding converge_rows
converge_rows-KeepsOwner tenant run host generation scope session [] db = refl
converge_rows-KeepsOwner tenant run host generation scope session (row ∷ rows) db =
    Ensures-raise_if (KeepsOwner tenant run db) _ _ _ (λ live.
      Ensures-bind (KeepsOwner tenant run db)
        (converge_orphaned_run host generation scope session row db)
        (converge_rows host generation scope session rows)
        (λ db' e.
          Ensures-weaken (KeepsOwner tenant run db') (KeepsOwner tenant run db)
            (converge_rows host generation scope session rows db')
            (converge_rows-KeepsOwner tenant run host generation scope session rows db')
            (λ db'' k.
              k
              ∙ Ensures-ok (KeepsOwner tenant run db)
                  (converge_orphaned_run host generation scope session row db)
                  (converge_orphaned_run-KeepsOwner tenant run host generation scope session row db)
                  e)))

pub assert_session_run_available-KeepsOwner :
    (tenant run : String) (host : Host) (generation scope session current : String) (db : Database)
    → Ensures
        (KeepsOwner tenant run db)
        (assert_session_run_available host generation scope session current db)
unfolding assert_session_run_available
assert_session_run_available-KeepsOwner tenant run host generation scope session current db =
    ground (
      arith,
      converge_rows-KeepsOwner tenant run host generation scope session
          (order_by (λ h. h.updated_at) (λ h. h.run_id)
            (select (is_rival scope session current) db.run_heads))
          db,
    )

pub renew_worker_lease_tx-KeepsHeads :
    (host : Host) (scope session target writer : String) (token : ℤ) (db : Database)
    → Ensures
        (λ db'. db'.run_heads ≡ db.run_heads)
        (renew_worker_lease_tx host scope session target writer token db)
unfolding renew_worker_lease_tx
renew_worker_lease_tx-KeepsHeads host scope session target writer token db = ground arith
