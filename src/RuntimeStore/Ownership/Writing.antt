-- ===== src/RuntimeStore/Ownership/Writing.antt =====
-- The transactions that hand a Run over and write behind its fence are moves of the machine of
-- ownership.
use mathlib.Core.Path.{subst₂}
use tsagent.Prelude.{
  ℕ, String, ◌≡◌, Bool, true, false, Option, none, some, List, [], ◌∷◌, refl, ◌∙◌, arith, ap,
  eq_iff, if◌then◌else◌, ltb,
}
use tsagent.Prelude.Int.{ℤ, pos, int_eq}
use tsagent.Prelude.Text.{is_empty}
use tsagent.Prelude.Ensures.{Ensures, Ensures-bind, Ensures-ok}
use tsagent.RuntimeStore.Errors.{StoreErrorCode}
use tsagent.RuntimeStore.Sql.{update_where}
use tsagent.RuntimeStore.Tables.{stored, ArtifactCommitFact, Database, RunHead, Host, checked}
use tsagent.RuntimeStore.Transaction.{fetch_head}
use tsagent.RuntimeStore.Leases.{assert_session_run_available}
use tsagent.RuntimeStore.Fences.{under_lease, grant_of}
use tsagent.RuntimeStore.Handover.{
  takeover_fence_tx, release_fence_tx, closed_fences, released_heads,
}
use tsagent.RuntimeStore.Revisions.{
  RevisionCall, is_expected_head, advanced_head, append_revision_tx, validate_write_head,
}
use tsagent.RuntimeStore.Revisions.Checks.{validate_write_head-ok}
use tsagent.RuntimeStore.Transitions.{
  TransitionCall, transition_tx, apply_transition, transition_event, is_read_head,
  transition_refusal, transition_writes,
}
use tsagent.RuntimeStore.Artifacts.{
  RunOutput, insert_run_output, insert_artifact_facts, record_artifact,
}
use tsagent.RuntimeStore.Events.{append_event_tx}
use tsagent.RuntimeStore.Ownership.{
  Handling, Move, handle, stay, release, advance, ownership, owner_of,
}
use tsagent.RuntimeStore.Ownership.Statements.{
  KeepsOwner, KeepsHeads, append_event_tx-KeepsHeads, ownership-update_where,
}
use tsagent.RuntimeStore.Ownership.Granting.{
  Handled, step-update_where, Handling-stay, Handling-update_where, after_kept,
  admission-KeepsOwner, renewal-Handled, grant_fence-Handled,
}

pub takeover_fence_tx-Handled :
    (tenant run : String) (host : Host) (generation scope session target writer : String)
    (expected : ℤ) (request : String) (worker_lease : Bool) (db : Database)
    → is_empty writer ≡ false
    → Ensures (Handled tenant run db) (
        takeover_fence_tx host generation scope session target writer expected request worker_lease
          db)
unfolding takeover_fence_tx
takeover_fence_tx-Handled tenant run host generation scope session target writer expected request
      worker_lease db n =
    Ensures-bind (Handled tenant run db) (fetch_head generation db scope target (some session)) _
      (λ row e.
        Ensures-bind (Handled tenant run db)
          (under_lease worker_lease
            (assert_session_run_available host generation scope session target) db)
          _
          (λ db1 f.
            after_kept tenant run db db1 _
              (Ensures-ok (KeepsOwner tenant run db) _
                (admission-KeepsOwner tenant run host generation scope session target worker_lease
                  db)
                f)
              (ground (
                arith,
                renewal-Handled tenant run host scope session target writer
                    (pos row.current_fence_token) worker_lease
                    (grant_of generation scope session target writer row.current_fence_token
                      row.current_revision true)
                    db1,
                grant_fence-Handled tenant run host generation scope session target writer request
                    worker_lease row (λ h. true)
                    (if ltb 0 row.current_fence_token
                      then record db1 {
                        run_fences =
                            closed_fences scope target (pos row.current_fence_token)
                              (host.now checked) db1.run_fences;
                      }
                      else db1)
                    n,
              ))))

released_heads-Handling :
    (tenant run : String) (host : Host) (scope target writer : String) (token : ℤ)
    (request : String) (heads : List RunHead)
    → Handling
        (ownership tenant run heads)
        (ownership tenant run (released_heads host scope target writer token request heads))
released_heads-Handling tenant run host scope target writer token request heads =
    Handling-update_where tenant run _ _ heads (λ h. refl) (λ h met found d. release (owner_of h))

pub release_fence_tx-Handled :
    (tenant run : String) (host : Host) (generation scope session target writer : String)
    (token : ℤ) (request : String) (db : Database)
    → Ensures
        (Handled tenant run db)
        (release_fence_tx host generation scope session target writer token request db)
unfolding release_fence_tx
release_fence_tx-Handled tenant run host generation scope session target writer token request db =
    ground (
      arith,
      stay (ownership tenant run db.run_heads),
      released_heads-Handling tenant run host scope target writer token request db.run_heads,
    )

-- A transaction that may also write, seen for one Run
abbrev pub Moved : {A : Type 0} → String → String → Database → Database × A → Type 0
Moved tenant run db x =
    Move (ownership tenant run db.run_heads) (ownership tenant run x.0.run_heads)

advanced_head-Move :
    (tenant run : String) (host : Host) (c : RevisionCall) (payload_json : String) (row : RunHead)
    (heads : List RunHead)
    → is_empty c.writer_id ≡ false
    → int_eq (pos row.current_revision) c.expected_revision ≡ true
    → Move (ownership tenant run heads) (
        ownership tenant run
          (update_where (is_expected_head c) (advanced_head host c payload_json row) heads))
advanced_head-Move tenant run host c payload_json row heads n r =
    step-update_where Move (λ v. handle (stay v)) tenant run _ _ heads (λ h. refl)
      (λ h met found d. subst₂ Move refl (ground (arith, eq_iff h.current_writer_id c.writer_id)) (
        advance (owner_of h) (host.sha256 payload_json)
          (ground (arith, eq_iff h.current_writer_id c.writer_id))))

pub append_revision_tx-Moved :
    (tenant run : String) (host : Host) (generation : String) (c : RevisionCall)
    (payload_json : String) (db : Database)
    → is_empty c.writer_id ≡ false
    → Ensures (Moved tenant run db) (append_revision_tx host generation c payload_json db)
unfolding append_revision_tx
append_revision_tx-Moved tenant run host generation c payload_json db n =
    Ensures-bind (Moved tenant run db)
      (validate_write_head generation c.tenant_id c.session_id c.run_id c.writer_id c.fence_token
        c.expected_revision c.expected_parent_digest c.expected_store_generation db)
      _
      (λ row e.
        let v = validate_write_head-ok generation c row db e in
        let m = advanced_head-Move tenant run host c payload_json row db.run_heads n v.2 in
        ground (arith, m))

insert_run_output-keeps_heads :
    (host : Host) (scope session target : String) (revision : ℕ) (output : Option RunOutput)
    (db : Database)
    → Ensures
        (λ db'. db'.run_heads ≡ db.run_heads)
        (insert_run_output host scope session target revision output db)
unfolding insert_run_output
insert_run_output-keeps_heads host scope session target revision none db = refl
insert_run_output-keeps_heads host scope session target revision (some output) db = ground arith

insert_artifact_facts-keeps_heads :
    (host : Host) (scope session target : String) (revision : ℕ) (request : String)
    (facts : List ArtifactCommitFact) (db : Database)
    → Ensures
        (λ db'. db'.run_heads ≡ db.run_heads)
        (insert_artifact_facts host scope session target revision request facts db)
unfolding insert_artifact_facts
insert_artifact_facts-keeps_heads host scope session target revision request [] db = refl
insert_artifact_facts-keeps_heads host scope session target revision request (fact ∷ facts) db =
    ground (
      arith,
      insert_artifact_facts-keeps_heads host scope session target revision request facts
          (record db {
            artifact_metadata =
                record_artifact host scope session target revision request fact
                  db.artifact_metadata;
          }),
    )

transition_writes-KeepsOwner :
    (tenant run : String) (host : Host) (c : TransitionCall) (row : RunHead) (db : Database)
    → KeepsOwner tenant run db (transition_writes host c row db)
transition_writes-KeepsOwner tenant run host c row db = ground (
  arith,
  ownership-update_where tenant run (is_read_head c row)
      (λ h. record h {
        run_status = c.run_status;
        request_id = c.request_id;
        updated_at = host.now stored;
      })
      db.run_heads (λ h. refl) (λ h. refl),
)

apply_transition-Handled :
    (tenant run : String) (host : Host) (generation : String) (c : TransitionCall)
    (payload_json : String) (row : RunHead) (o : Option StoreErrorCode) (db : Database)
    → Ensures (Handled tenant run db) (apply_transition host generation c payload_json row o db)
unfolding apply_transition
apply_transition-Handled tenant run host generation c payload_json row (some e) db = tt
apply_transition-Handled tenant run host generation c payload_json row none db =
    Ensures-bind (Handled tenant run db)
      (insert_run_output host c.tenant_id c.session_id c.run_id row.current_revision c.run_output
        db)
      _
      (λ db1 e1.
        Ensures-bind (Handled tenant run db)
          (insert_artifact_facts host c.tenant_id c.session_id c.run_id row.current_revision
            c.request_id c.artifacts db1)
          _
          (λ db2 e2.
            Ensures-bind (Handled tenant run db)
              (append_event_tx host generation (transition_event host c payload_json row) db2) _
              (λ a e3.
                let k1 =
                  Ensures-ok (λ x. x.run_heads ≡ db.run_heads) _
                    (insert_run_output-keeps_heads host c.tenant_id c.session_id c.run_id
                      row.current_revision c.run_output db)
                    e1 in
                let k2 =
                  Ensures-ok (λ x. x.run_heads ≡ db1.run_heads) _
                    (insert_artifact_facts-keeps_heads host c.tenant_id c.session_id c.run_id
                      row.current_revision c.request_id c.artifacts db1)
                    e2 in
                let k3 =
                  Ensures-ok (KeepsHeads db2) _
                    (append_event_tx-KeepsHeads host generation
                      (transition_event host c payload_json row) db2)
                    e3 in
                let k4 = transition_writes-KeepsOwner tenant run host c row a.0 in
                let m = Handling-stay (k4 ∙ ap (ownership tenant run) (k3 ∙ k2 ∙ k1)) in
                ground (arith, m))))

pub transition_tx-Handled :
    (tenant run : String) (host : Host) (generation : String) (c : TransitionCall)
    (payload_json : String) (db : Database)
    → Ensures (Handled tenant run db) (transition_tx host generation c payload_json db)
unfolding transition_tx
transition_tx-Handled tenant run host generation c payload_json db =
    Ensures-bind (Handled tenant run db)
      (fetch_head generation db c.tenant_id c.run_id (some c.session_id)) _
      (λ row e. ground (
        arith,
        apply_transition-Handled tenant run host generation c payload_json row
            (transition_refusal row.run_status c.run_status c.event_type c.expected_status) db,
      ))
