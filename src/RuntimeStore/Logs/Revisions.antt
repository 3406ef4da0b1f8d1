-- ===== src/RuntimeStore/Logs/Revisions.antt =====
-- The chains through every transaction and every sequence of calls.
use tsagent.RuntimeStore.EventReads.{retention_floor_tx}
use tsagent.Prelude.{ℕ, String, ◌≡◌, Option, none, some, List, [], ◌∷◌, refl, arith, ◌∙◌}
use tsagent.Prelude.Lists.{select}
use tsagent.Prelude.Result.{Result}
use tsagent.Prelude.Ensures.{Ensures, Ensures-given, Ensures-weaken}
use tsagent.RuntimeStore.Errors.{StoreErrorCode}
use tsagent.RuntimeStore.Sql.{fetch_one}
use tsagent.RuntimeStore.Tables.{
  EventHeadRow, event_head_of, Database, SqliteRuntimeStore, RevisionRecord, Host, empty_database,
}
use tsagent.RuntimeStore.Fences.{initialize_run_tx, acquire_fence_tx}
use tsagent.RuntimeStore.Handover.{takeover_fence_tx, release_fence_tx}
use tsagent.RuntimeStore.Leases.{owner_renewal_tx}
use tsagent.RuntimeStore.Transitions.{transition_tx}
use tsagent.RuntimeStore.Events.{with_event_head, EventDraft, append_event_tx, store_event}
use tsagent.RuntimeStore.Revisions.{append_revision_tx}
use tsagent.RuntimeStore.Calls.{Call, perform, run_calls}
use tsagent.RuntimeStore.Calls.Steps.{Steps, perform-step}
use tsagent.RuntimeStore.Logs.{SameLogs}
use tsagent.RuntimeStore.Logs.Frame.{
  acquire_fence_tx-kept, takeover_fence_tx-kept, transition_tx-kept,
}
use tsagent.RuntimeStore.Logs.Untouched.{
  initialize_run_tx-SameLogs, release_fence_tx-SameLogs, owner_renewal_tx-SameLogs,
}
use tsagent.RuntimeStore.Logs.Chains.{HasChains, handled-HasChains, append_revision_tx-HasChains}
use tsagent.RuntimeStore.Ownership.Granting.{initialize_run_tx-Handled, acquire_fence_tx-Handled}
use tsagent.RuntimeStore.Ownership.Writing.{
  takeover_fence_tx-Handled, release_fence_tx-Handled, transition_tx-Handled,
}
use tsagent.RuntimeStore.Ownership.Refinement.{
  append_event_tx-Handled, retention_floor_tx-Handled, owner_renewal_tx-Handled,
}

-- The table of revisions, which every transaction but one leaves alone
abbrev Unrevised : List RevisionRecord → Database → Type 0
Unrevised rows db = db.run_resume_revisions ≡ rows

store_event-Unrevised :
    (host : Host) (d : EventDraft) (rows : List RevisionRecord) (db : Database)
    (heads : List EventHeadRow) (o : Option EventHeadRow)
    → Unrevised rows db
    → Ensures (λ y. Unrevised rows y.0) (store_event host d db heads o)
unfolding store_event
store_event-Unrevised host d rows db heads none e = tt
store_event-Unrevised host d rows db heads (some h) e = ground arith

append_event_tx-Unrevised :
    (rows : List RevisionRecord) (host : Host) (g : String) (d : EventDraft) (db : Database)
    → Unrevised rows db
    → Ensures (λ y. Unrevised rows y.0) (append_event_tx host g d db)
unfolding append_event_tx
append_event_tx-Unrevised rows host g d db e =
    let heads = with_event_head host d db.run_event_heads in
    ground (
      arith,
      store_event-Unrevised host d rows db heads
          (fetch_one (event_head_of d.tenant_id d.run_id) heads) e,
    )

same-Unrevised :
    (rows : List RevisionRecord) (db db' : Database)
    → SameLogs db db'
    → Unrevised rows db
    → Unrevised rows db'
same-Unrevised rows db db' (r, h, e) k = r ∙ k

same_revisions :
    {A : Type 0} (db : Database) (m : Result StoreErrorCode (Database × A))
    → Ensures (λ y. SameLogs db y.0) m
    → Ensures (λ y. y.0.run_resume_revisions ≡ db.run_resume_revisions) m
same_revisions db m h =
    Ensures-weaken (λ y. SameLogs db y.0) (λ y. y.0.run_resume_revisions ≡ db.run_resume_revisions)
      m h (λ y k. k.0)

retention_floor_tx-Unrevised :
    (host : Host) (g t x r : String) (n : ℕ) (db : Database)
    → Ensures
        (λ y. y.0.run_resume_revisions ≡ db.run_resume_revisions)
        (retention_floor_tx host g t x r n db)
unfolding retention_floor_tx
retention_floor_tx-Unrevised host g t x r n db = ground arith

chain_transactions : Steps (λ db db'. HasChains db → HasChains db')
chain_transactions = record {
  retain = λ host g t x r n db.
      handled-HasChains db (retention_floor_tx host g t x r n db)
        (λ tenant run. retention_floor_tx-Handled tenant run host g t x r n db)
        (retention_floor_tx-Unrevised host g t x r n db);
  skip = λ db chains. chains;
  initialize = λ host g t x r q u db.
      handled-HasChains db (initialize_run_tx host g t x r q u db)
        (λ tenant run. initialize_run_tx-Handled tenant run host g t x r q u db)
        (same_revisions db (initialize_run_tx host g t x r q u db)
          (initialize_run_tx-SameLogs host g t x r q u db));
  acquire = λ host g t x r w n q l db e.
      handled-HasChains db (acquire_fence_tx host g t x r w n q l db)
        (λ tenant run. acquire_fence_tx-Handled tenant run host g t x r w n q l db e)
        (acquire_fence_tx-kept (Unrevised db.run_resume_revisions)
          (same-Unrevised db.run_resume_revisions)
          (append_event_tx-Unrevised db.run_resume_revisions) host g t x r w n q l db refl);
  take_over = λ host g t x r w n q l db e.
      handled-HasChains db (takeover_fence_tx host g t x r w n q l db)
        (λ tenant run. takeover_fence_tx-Handled tenant run host g t x r w n q l db e)
        (takeover_fence_tx-kept (Unrevised db.run_resume_revisions)
          (same-Unrevised db.run_resume_revisions)
          (append_event_tx-Unrevised db.run_resume_revisions) host g t x r w n q l db refl);
  renew = λ host g t x r w n db.
      handled-HasChains db (owner_renewal_tx host g t x r w n db)
        (λ tenant run. owner_renewal_tx-Handled tenant run host g t x r w n db)
        (same_revisions db (owner_renewal_tx host g t x r w n db)
          (owner_renewal_tx-SameLogs host g t x r w n db));
  hand_back = λ host g t x r w n q db.
      handled-HasChains db (release_fence_tx host g t x r w n q db)
        (λ tenant run. release_fence_tx-Handled tenant run host g t x r w n q db)
        (same_revisions db (release_fence_tx host g t x r w n q db)
          (release_fence_tx-SameLogs host g t x r w n q db));
  write_revision = λ host g c j db e.
      Ensures-given (HasChains db) (λ y. HasChains y.0) (append_revision_tx host g c j db)
        (append_revision_tx-HasChains host g c j db);
  write_event = λ host g d db.
      handled-HasChains db (append_event_tx host g d db)
        (λ tenant run. append_event_tx-Handled tenant run host g d db)
        (append_event_tx-Unrevised db.run_resume_revisions host g d db refl);
  transition = λ host g c j db.
      handled-HasChains db (transition_tx host g c j db)
        (λ tenant run. transition_tx-Handled tenant run host g c j db)
        (transition_tx-kept (Unrevised db.run_resume_revisions)
          (same-Unrevised db.run_resume_revisions)
          (append_event_tx-Unrevised db.run_resume_revisions) host g c j db refl);
}

-- In whatever order calls of whatever writers reach a store, the revisions of every Run stay one
-- chain: they are numbered 1, 2, and so on, each names the payload digest of the one before as its
-- parent, the first an empty one, and the head of the Run has the number and the digest of the last.
pub run_calls-HasChains :
    (s : SqliteRuntimeStore) (calls : List (Host × Call))
    → HasChains s.database
    → HasChains (run_calls s calls).database
unfolding run_calls
run_calls-HasChains s [] chains = chains
run_calls-HasChains s ((host, c) ∷ calls) chains =
    run_calls-HasChains (perform host s c) calls
      (perform-step (λ db db'. HasChains db → HasChains db') chain_transactions host s c chains)

-- A database just created has no Runs and no revisions.
pub fresh-HasChains : HasChains empty_database
unfolding select fetch_one
fresh-HasChains tenant run = refl
