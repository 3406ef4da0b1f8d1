-- ===== src/RuntimeStore/Calls/Steps.antt =====
-- What every transaction does to the database when it returns: a relation that holds of each of
-- them holds of each call.
use tsagent.Prelude.{ℕ, String, ◌≡◌, Bool, false, Option, refl, arith}
use tsagent.Prelude.Int.{ℤ}
use tsagent.Prelude.Text.{is_empty}
use tsagent.Prelude.Result.{Result, ok, err, ◌>>=◌}
use tsagent.Prelude.Ensures.{Ensures}
use tsagent.RuntimeStore.Errors.{StoreErrorCode}
use tsagent.RuntimeStore.Tables.{Database, SqliteRuntimeStore, Host}
use tsagent.RuntimeStore.Transaction.{
  require_text, require_writer, check_generation, transact, Transaction, write_transaction,
}
use tsagent.RuntimeStore.EventReads.{set_event_retention_floor, retention_floor_tx}
use tsagent.RuntimeStore.Leases.{renew_worker_lease, owner_renewal_tx}
use tsagent.RuntimeStore.Fences.{initialize_run, acquire_fence, initialize_run_tx, acquire_fence_tx}
use tsagent.RuntimeStore.Handover.{
  takeover_fence, release_fence, takeover_fence_tx, release_fence_tx,
}
use tsagent.RuntimeStore.Revisions.{
  RevisionCall, append_revision, append_revision_tx, revision_draft,
}
use tsagent.RuntimeStore.Events.{EventCall, EventDraft, append_event, append_event_tx}
use tsagent.RuntimeStore.Transitions.{TransitionCall, transition_run_with_event, transition_tx}
use tsagent.RuntimeStore.Calls.{
  Call, initializing, acquiring, taking_over, renewing, releasing, appending_revision,
  appending_event, transitioning, retaining, perform,
}

pub record Steps (Q : Database → Database → Type 0) : Type 0 where
  pub skip : (db : Database) → Q db db
  pub initialize :
      (host : Host) (generation t x r q u : String) (db : Database)
      → Ensures (λ y. Q db y.0) (initialize_run_tx host generation t x r q u db)
  pub acquire :
      (host : Host) (generation t x r w : String) (n : Option ℤ) (q : String) (l : Bool)
      (db : Database)
      → is_empty w ≡ false
      → Ensures (λ y. Q db y.0) (acquire_fence_tx host generation t x r w n q l db)
  pub take_over :
      (host : Host) (generation t x r w : String) (n : ℤ) (q : String) (l : Bool) (db : Database)
      → is_empty w ≡ false
      → Ensures (λ y. Q db y.0) (takeover_fence_tx host generation t x r w n q l db)
  pub renew :
      (host : Host) (generation t x r w : String) (n : ℤ) (db : Database)
      → Ensures (λ y. Q db y.0) (owner_renewal_tx host generation t x r w n db)
  pub hand_back :
      (host : Host) (generation t x r w : String) (n : ℤ) (q : String) (db : Database)
      → Ensures (λ y. Q db y.0) (release_fence_tx host generation t x r w n q db)
  pub write_revision :
      (host : Host) (generation : String) (c : RevisionCall) (j : String) (db : Database)
      → is_empty c.writer_id ≡ false
      → Ensures (λ y. Q db y.0) (append_revision_tx host generation c j db)
  pub write_event :
      (host : Host) (generation : String) (d : EventDraft) (db : Database)
      → Ensures (λ y. Q db y.0) (append_event_tx host generation d db)
  pub transition :
      (host : Host) (generation : String) (c : TransitionCall) (j : String) (db : Database)
      → Ensures (λ y. Q db y.0) (transition_tx host generation c j db)
  pub retain :
      (host : Host) (generation t x r : String) (n : ℕ) (db : Database)
      → Ensures (λ y. Q db y.0) (retention_floor_tx host generation t x r n db)

transact-step :
    {A B : Type 0} (Q : Database → Database → Type 0)
    → ((db : Database) → Q db db)
    → (host : Host) (s : SqliteRuntimeStore) (m : Result StoreErrorCode B)
      (body : B → Transaction A)
    → ((b : B) → m ≡ ok b → Ensures (λ y. Q s.database y.0) (body b s.database))
    → Q s.database (transact host s m body).0.database
unfolding transact write_transaction
transact-step Q q host s (err e) body h = q s.database
transact-step Q q host s (ok b) body h = let m = h b refl in let n = q s.database in ground arith

writer_of :
    (generation tenant session run writer : String) (expected : Option String)
    (b : String × String × String × String)
    → (require_writer tenant session run writer >>= λ scope.
        check_generation generation expected >>= λ _. ok scope)
      ≡ ok b
    → is_empty b.3 ≡ false
unfolding require_writer require_text
writer_of generation tenant session run writer expected b h = ground arith

revision_draft-writer :
    (host : Host) (generation : String) (c d : RevisionCall) (j : String)
    → revision_draft host generation c ≡ ok (d, j)
    → is_empty d.writer_id ≡ false
unfolding revision_draft require_text
revision_draft-writer host generation c d j h = ground arith

module _ (Q : Database → Database → Type 0) (p : Steps Q) (host : Host)
    (s : SqliteRuntimeStore) where
  initialize_run-step :
      (t x r q u : String) (g : Option String)
      → Q s.database (initialize_run host s t x r q u g).0.database
  unfolding initialize_run
  initialize_run-step t x r q u g =
      transact-step Q p.skip host s _ _
        (λ (t', x', r', u') e. p.initialize host s.store_generation t' x' r' q u' s.database)

  acquire_fence-step :
      (t x r w : String) (n : Option ℤ) (q : String) (g : Option String) (l : Bool)
      → Q s.database (acquire_fence host s t x r w n q g l).0.database
  unfolding acquire_fence
  acquire_fence-step t x r w n q g l = transact-step Q p.skip host s _ _ (λ (t', x', r', w') e.
      p.acquire host s.store_generation t' x' r' w' n q l s.database
        (writer_of s.store_generation t x r w g (t', x', r', w') e))

  takeover_fence-step :
      (t x r w : String) (n : ℤ) (q : String) (g : Option String) (l : Bool)
      → Q s.database (takeover_fence host s t x r w n q g l).0.database
  unfolding takeover_fence
  takeover_fence-step t x r w n q g l = transact-step Q p.skip host s _ _ (λ (t', x', r', w') e.
      p.take_over host s.store_generation t' x' r' w' n q l s.database
        (writer_of s.store_generation t x r w g (t', x', r', w') e))

  release_fence-step :
      (t x r w : String) (n : ℤ) (q : String) (g : Option String)
      → Q s.database (release_fence host s t x r w n q g).0.database
  unfolding release_fence
  release_fence-step t x r w n q g =
      transact-step Q p.skip host s _ _
        (λ (t', x', r', w') e. p.hand_back host s.store_generation t' x' r' w' n q s.database)

  renew_worker_lease-step :
      (t x r w : String) (n : ℤ) (g : Option String)
      → Q s.database (renew_worker_lease host s t x r w n g).0.database
  unfolding renew_worker_lease
  renew_worker_lease-step t x r w n g =
      transact-step Q p.skip host s _ _
        (λ (t', x', r', w') e. p.renew host s.store_generation t' x' r' w' n s.database)

  append_revision-step : (c : RevisionCall) → Q s.database (append_revision host s c).0.database
  unfolding append_revision
  append_revision-step c = transact-step Q p.skip host s _ _ (λ (d, j) e.
      p.write_revision host s.store_generation d j s.database
        (revision_draft-writer host s.store_generation c d j e))

  append_event-step : (c : EventCall) → Q s.database (append_event host s c).0.database
  unfolding append_event
  append_event-step c =
      transact-step Q p.skip host s _ _ (λ d e. p.write_event host s.store_generation d s.database)

  transition_run-step :
      (c : TransitionCall) → Q s.database (transition_run_with_event host s c).0.database
  unfolding transition_run_with_event
  transition_run-step c =
      transact-step Q p.skip host s _ _
        (λ (d, j) e. p.transition host s.store_generation d j s.database)

  set_event_retention_floor-step :
      (t x r : String) (n : ℤ) → Q s.database (set_event_retention_floor host s t x r n).0.database
  unfolding set_event_retention_floor
  set_event_retention_floor-step t x r n =
      transact-step Q p.skip host s _ _
        (λ (t', x', r', n') e. p.retain host s.store_generation t' x' r' n' s.database)

-- Whatever the call and whether it fails or not
pub perform-step :
    (Q : Database → Database → Type 0)
    → Steps Q
    → (host : Host) (s : SqliteRuntimeStore) (c : Call) → Q s.database (perform host s c).database
unfolding perform
perform-step Q p host s (initializing t x r q u g) = initialize_run-step Q p host s t x r q u g
perform-step Q p host s (acquiring t x r w n q g l) = acquire_fence-step Q p host s t x r w n q g l
perform-step Q p host s (taking_over t x r w n q g l) =
    takeover_fence-step Q p host s t x r w n q g l
perform-step Q p host s (renewing t x r w n g) = renew_worker_lease-step Q p host s t x r w n g
perform-step Q p host s (releasing t x r w n q g) = release_fence-step Q p host s t x r w n q g
perform-step Q p host s (appending_revision c) = append_revision-step Q p host s c
perform-step Q p host s (appending_event c) = append_event-step Q p host s c
perform-step Q p host s (transitioning c) = transition_run-step Q p host s c
perform-step Q p host s (retaining t x r n) = set_event_retention_floor-step Q p host s t x r n
