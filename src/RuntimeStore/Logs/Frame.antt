-- ===== src/RuntimeStore/Logs/Frame.antt =====
-- A predicate on the logs that the append of an event keeps is kept by every transaction but the
-- append of a revision.
use tsagent.RuntimeStore.EventReads.{retention_floor_tx}
use tsagent.Prelude.{
  ℕ, String, Bool, true, false, Option, none, some, List, [], ◌∷◌, refl, arith, ◌==◌, ltb,
  if◌then◌else◌,
}
use tsagent.Prelude.Int.{ℤ, pos}
use tsagent.Prelude.Lists.{select}
use tsagent.Prelude.Result.{Result, ok, ◌>>=◌}
use tsagent.Prelude.Ensures.{
  Ensures, Ensures-bind, Ensures-raise_if, Ensures-ok, Ensures-weaken, Ensures-given,
}
use tsagent.RuntimeStore.Errors.{StoreErrorCode}
use tsagent.RuntimeStore.Sql.{order_by}
use tsagent.RuntimeStore.Tables.{Database, RunHead, Host, checked}
use tsagent.RuntimeStore.Transaction.{fetch_head, canonical_json}
use tsagent.RuntimeStore.Leases.{
  converge_orphaned_run, converge_rows, assert_session_run_available, renew_worker_lease_tx,
  owner_renewal_tx, lost_payload, lost_draft, is_rival,
}
use tsagent.RuntimeStore.Fences.{
  initialize_run_tx, acquire_fence_tx, grant_fence, under_lease, grant_of,
}
use tsagent.RuntimeStore.Handover.{takeover_fence_tx, release_fence_tx, closed_fences}
use tsagent.RuntimeStore.Artifacts.{insert_run_output, insert_artifact_facts}
use tsagent.RuntimeStore.Events.{EventDraft, append_event_tx}
use tsagent.RuntimeStore.Transitions.{
  TransitionCall, transition_tx, apply_transition, transition_event, transition_writes,
  transition_refusal,
}
use tsagent.RuntimeStore.Revisions.{RevisionCall, append_revision_tx}
use tsagent.RuntimeStore.Calls.Steps.{Steps}
use tsagent.RuntimeStore.Logs.{SameLogs}
use tsagent.RuntimeStore.Logs.Untouched.{
  insert_run_output-SameLogs, insert_artifact_facts-SameLogs, transition_writes-SameLogs,
  renew_worker_lease_tx-SameLogs, grant_fence-SameLogs, initialize_run_tx-SameLogs,
  release_fence_tx-SameLogs, owner_renewal_tx-SameLogs, closing,
}

module _ (P : Database → Type 0) (same : (db db' : Database) → SameLogs db db' → P db → P db')
    (event : (host : Host) (g : String) (d : EventDraft) (db : Database)
      → P db
      → Ensures (λ y. P y.0) (append_event_tx host g d db)) where
  kept :
      {A : Type 0} (db : Database) (m : Result StoreErrorCode (Database × A))
      → P db
      → Ensures (λ y. SameLogs db y.0) m
      → Ensures (λ y. P y.0) m
  kept db m p h = Ensures-weaken (λ y. SameLogs db y.0) (λ y. P y.0) m h (λ y k. same db y.0 k p)

  converge_orphaned_run-kept :
      (host : Host) (g t x : String) (row : RunHead) (db : Database)
      → P db
      → Ensures P (converge_orphaned_run host g t x row db)
  unfolding converge_orphaned_run
  converge_orphaned_run-kept host g t x row db p =
      Ensures-bind P (canonical_json host lost_payload) _ (λ j e.
        Ensures-bind P (append_event_tx host g (lost_draft host t x row j) db) _ (λ a f.
          same a.0 _ (refl, refl, refl)
            (Ensures-ok (λ y. P y.0) (append_event_tx host g (lost_draft host t x row j) db)
              (event host g (lost_draft host t x row j) db p) f)))

  converge_rows-kept :
      (host : Host) (g t x : String) (rows : List RunHead) (db : Database)
      → P db
      → Ensures P (converge_rows host g t x rows db)
  unfolding converge_rows
  converge_rows-kept host g t x [] db p = p
  converge_rows-kept host g t x (row ∷ rows) db p = Ensures-raise_if P _ _ _ (λ gone.
      Ensures-bind P (converge_orphaned_run host g t x row db) (converge_rows host g t x rows)
        (λ db' e. converge_rows-kept host g t x rows db' (
          Ensures-ok P (converge_orphaned_run host g t x row db)
            (converge_orphaned_run-kept host g t x row db p) e)))

  admission-kept :
      (host : Host) (g t x r : String) (l : Bool) (db : Database)
      → P db
      → Ensures P (under_lease l (assert_session_run_available host g t x r) db)
  unfolding assert_session_run_available
  admission-kept host g t x r false db p = p
  admission-kept host g t x r true db p =
      Ensures-bind P
        (converge_rows host g t x
          (order_by (λ h. h.updated_at) (λ h. h.run_id) (select (is_rival t x r) db.run_heads)) db)
        _
        (λ db' e. Ensures-raise_if P _ _ (ok db') (λ f.
          Ensures-ok P
            (converge_rows host g t x
              (order_by (λ h. h.updated_at) (λ h. h.run_id) (select (is_rival t x r) db.run_heads))
              db)
            (converge_rows-kept host g t x
              (order_by (λ h. h.updated_at) (λ h. h.run_id) (select (is_rival t x r) db.run_heads))
              db p)
            e))

  renewal-kept :
      {A : Type 0} (host : Host) (t x r w : String) (n : ℤ) (l : Bool) (a : A) (db : Database)
      → P db
      → Ensures {A = Database × A}
          (λ y. P y.0)
          (under_lease l (renew_worker_lease_tx host t x r w n) db >>= λ db'. ok (db', a))
  renewal-kept host t x r w n false a db p = p
  renewal-kept host t x r w n true a db p =
      Ensures-bind (λ y. P y.0) (renew_worker_lease_tx host t x r w n db) _
        (λ db' e.
          same db db'
            (Ensures-ok (SameLogs db) (renew_worker_lease_tx host t x r w n db)
              (renew_worker_lease_tx-SameLogs host t x r w n db) e)
            p)

  pub acquire_fence_tx-kept :
      (host : Host) (g t x r w : String) (n : Option ℤ) (q : String) (l : Bool) (db : Database)
      → P db
      → Ensures (λ y. P y.0) (acquire_fence_tx host g t x r w n q l db)
  unfolding acquire_fence_tx
  acquire_fence_tx-kept host g t x r w n q l db p =
      Ensures-bind (λ y. P y.0) (fetch_head g db t r (some x)) _
        (λ row e.
          Ensures-bind (λ y. P y.0) (under_lease l (assert_session_run_available host g t x r) db) _
            (λ db1 f.
              let p1 =
                Ensures-ok P (under_lease l (assert_session_run_available host g t x r) db)
                  (admission-kept host g t x r l db p) f in
              ground (
                arith,
                renewal-kept host t x r w (pos row.current_fence_token) l
                    (grant_of g t x r w row.current_fence_token row.current_revision true) db1 p1,
                kept db1 (grant_fence host g t x r w q l row (λ h. h.current_writer_id == "") db1)
                    p1
                    (grant_fence-SameLogs host g t x r w q l row (λ h. h.current_writer_id == "")
                      db1),
              )))

  pub takeover_fence_tx-kept :
      (host : Host) (g t x r w : String) (n : ℤ) (q : String) (l : Bool) (db : Database)
      → P db
      → Ensures (λ y. P y.0) (takeover_fence_tx host g t x r w n q l db)
  unfolding takeover_fence_tx
  takeover_fence_tx-kept host g t x r w n q l db p =
      Ensures-bind (λ y. P y.0) (fetch_head g db t r (some x)) _
        (λ row e.
          Ensures-bind (λ y. P y.0) (under_lease l (assert_session_run_available host g t x r) db) _
            (λ db1 f.
              let p1 =
                Ensures-ok P (under_lease l (assert_session_run_available host g t x r) db)
                  (admission-kept host g t x r l db p) f in
              let db2 =
                if ltb 0 row.current_fence_token
                then record db1 {
                  run_fences =
                      closed_fences t r (pos row.current_fence_token) (host.now checked)
                        db1.run_fences;
                }
                else db1 in
              let p2 = same db1 db2 (closing host t r row db1) p1 in
              ground (
                arith,
                renewal-kept host t x r w (pos row.current_fence_token) l
                    (grant_of g t x r w row.current_fence_token row.current_revision true) db1 p1,
                kept db2 (grant_fence host g t x r w q l row (λ h. true) db2) p2
                    (grant_fence-SameLogs host g t x r w q l row (λ h. true) db2),
              )))

  apply_transition-kept :
      (host : Host) (g : String) (c : TransitionCall) (j : String) (row : RunHead)
      (o : Option StoreErrorCode) (db : Database)
      → P db
      → Ensures (λ y. P y.0) (apply_transition host g c j row o db)
  unfolding apply_transition
  apply_transition-kept host g c j row (some e) db p = tt
  apply_transition-kept host g c j row none db p =
      Ensures-bind (λ y. P y.0)
        (insert_run_output host c.tenant_id c.session_id c.run_id row.current_revision c.run_output
          db)
        _
        (λ db1 e1.
          Ensures-bind (λ y. P y.0)
            (insert_artifact_facts host c.tenant_id c.session_id c.run_id row.current_revision
              c.request_id c.artifacts db1)
            _
            (λ db2 e2.
              Ensures-bind (λ y. P y.0) (append_event_tx host g (transition_event host c j row) db2)
                _
                (λ a e3.
                  let p1 =
                    same db db1
                      (Ensures-ok (SameLogs db) _
                        (insert_run_output-SameLogs host c.tenant_id c.session_id c.run_id
                          row.current_revision c.run_output db)
                        e1)
                      p in
                  let p2 =
                    same db1 db2
                      (Ensures-ok (SameLogs db1) _
                        (insert_artifact_facts-SameLogs host c.tenant_id c.session_id c.run_id
                          row.current_revision c.request_id c.artifacts db1)
                        e2)
                      p1 in
                  let p3 =
                    Ensures-ok (λ y. P y.0) _ (event host g (transition_event host c j row) db2 p2)
                      e3 in
                  let p4 =
                    same a.0 (transition_writes host c row a.0)
                      (transition_writes-SameLogs host c row a.0) p3 in
                  ground (arith, p4))))

  pub transition_tx-kept :
      (host : Host) (g : String) (c : TransitionCall) (j : String) (db : Database)
      → P db
      → Ensures (λ y. P y.0) (transition_tx host g c j db)
  unfolding transition_tx
  transition_tx-kept host g c j db p =
      Ensures-bind (λ y. P y.0) (fetch_head g db c.tenant_id c.run_id (some c.session_id)) _
        (λ row e. ground (
          arith,
          apply_transition-kept host g c j row
              (transition_refusal row.run_status c.run_status c.event_type c.expected_status) db p,
        ))

  -- With the append of a revision, these are all transactions.
  pub kept_steps :
      ((host : Host) (g : String) (c : RevisionCall) (j : String) (db : Database)
        → P db
        → Ensures (λ y. P y.0) (append_revision_tx host g c j db))
      → ((host : Host) (g t x r : String) (n : ℕ) (db : Database)
          → P db
          → Ensures (λ y. P y.0) (retention_floor_tx host g t x r n db))
      → Steps (λ db db'. P db → P db')
  kept_steps revision retention = record {
    retain = λ host g t x r n db.
        Ensures-given (P db) (λ y. P y.0) (retention_floor_tx host g t x r n db)
          (retention host g t x r n db);
    skip = λ db p. p;
    initialize = λ host g t x r q u db.
        Ensures-given (P db) (λ y. P y.0) (initialize_run_tx host g t x r q u db)
          (λ p.
            kept db (initialize_run_tx host g t x r q u db) p
              (initialize_run_tx-SameLogs host g t x r q u db));
    acquire = λ host g t x r w n q l db e.
        Ensures-given (P db) (λ y. P y.0) (acquire_fence_tx host g t x r w n q l db)
          (acquire_fence_tx-kept host g t x r w n q l db);
    take_over = λ host g t x r w n q l db e.
        Ensures-given (P db) (λ y. P y.0) (takeover_fence_tx host g t x r w n q l db)
          (takeover_fence_tx-kept host g t x r w n q l db);
    renew = λ host g t x r w n db.
        Ensures-given (P db) (λ y. P y.0) (owner_renewal_tx host g t x r w n db)
          (λ p.
            kept db (owner_renewal_tx host g t x r w n db) p
              (owner_renewal_tx-SameLogs host g t x r w n db));
    hand_back = λ host g t x r w n q db.
        Ensures-given (P db) (λ y. P y.0) (release_fence_tx host g t x r w n q db)
          (λ p.
            kept db (release_fence_tx host g t x r w n q db) p
              (release_fence_tx-SameLogs host g t x r w n q db));
    write_revision = λ host g c j db e.
        Ensures-given (P db) (λ y. P y.0) (append_revision_tx host g c j db)
          (revision host g c j db);
    write_event = λ host g d db.
        Ensures-given (P db) (λ y. P y.0) (append_event_tx host g d db) (event host g d db);
    transition = λ host g c j db.
        Ensures-given (P db) (λ y. P y.0) (transition_tx host g c j db)
          (transition_tx-kept host g c j db);
  }
