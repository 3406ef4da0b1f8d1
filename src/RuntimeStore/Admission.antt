-- ===== src/RuntimeStore/Admission.antt =====
-- One Run at a time in a session: what agent/runtime_store/sqlite.py leaves behind when it admits a
-- worker.
mod Granted
pub mod Exclusive
use mathlib.Core.Path.{subst}
use tsagent.Prelude.{
  sym, ℕ, String, ◌≡◌, Bool, true, false, Option, none, some, List, [], ◌∷◌, ◌++◌, refl, arith,
  ◌==◌, ◌&&◌, ◌||◌, not, eq_iff, eq_refl, Bool-cases, inl, inr, ◌∙◌, ltb, if◌then◌else◌,
}
use tsagent.Prelude.Int.{ℤ, pos}
use tsagent.Prelude.Lists.{any, select, All, any-append}
use tsagent.Prelude.Result.{Result, ok, err, ◌>>=◌, raise_if}
use tsagent.Prelude.Text.{strip, contains}
use tsagent.Prelude.Ensures.{Ensures, Ensures-bind, Ensures-raise_if, Ensures-ok, Ensures-weaken}
use tsagent.RuntimeStore.Errors.{StoreErrorCode, session_run_active}
use tsagent.RuntimeStore.Sql.{update_where, order_by, insert_by}
use tsagent.RuntimeStore.Tables.{
  Database, SqliteRuntimeStore, RunHead, WorkerLease, FenceGrant, Host, head_of, admission,
}
use tsagent.RuntimeStore.Transaction.{
  fetch_head, canonical_json, require_writer, require_text, check_generation, transact,
  write_transaction,
}
use tsagent.RuntimeStore.Events.{append_event_tx}
use tsagent.RuntimeStore.Leases.{
  converge_orphaned_run, converge_rows, assert_session_run_available, renew_worker_lease_tx,
  lost_payload, lost_draft, is_rival, is_rival_lease, put_worker_lease, is_active, is_alive,
}
use tsagent.RuntimeStore.Fences.{
  acquire_fence, acquire_fence_tx, grant_fence, insert_fence, under_lease, hand_over, grant_of,
}
use tsagent.RuntimeStore.Ownership.Statements.{KeepsHeads, append_event_tx-KeepsHeads}

module _ {ℓ} {A : Type ℓ} where
  All-weaken : (P Q : A → Type 0) (xs : List A) → ((a : A) → P a → Q a) → All P xs → All Q xs
  All-weaken P Q [] k h = tt
  All-weaken P Q (x ∷ xs) k (h, hs) = (k x h, All-weaken P Q xs k hs)

  -- What passes a test is found among the rows selected by it.
  select-seen :
      (p : A → Bool) (same : A → A → Bool) (xs : List A)
      → ((a : A) → same a a ≡ true)
      → All (λ a. p a ≡ true → any (λ b. same b a) (select p xs) ≡ true) xs
  unfolding any select
  select-seen p same [] r = tt
  select-seen p same (x ∷ xs) r = (
    λ h. ground (arith, r x),
    All-weaken (λ a. p a ≡ true → any (λ b. same b a) (select p xs) ≡ true)
        (λ a. p a ≡ true → any (λ b. same b a) (select p (x ∷ xs)) ≡ true) xs
        (λ a k h. let m = k h in ground arith) (select-seen p same xs r),
  )

  any-insert_by :
      (major minor : A → String) (p : A → Bool) (x : A) (ys : List A)
      → any p (insert_by major minor x ys) ≡ (p x || any p ys)
  unfolding any insert_by
  any-insert_by major minor p x [] = refl
  any-insert_by major minor p x (y ∷ ys) = ground (arith, any-insert_by major minor p x ys)

  any-order_by :
      (major minor : A → String) (p : A → Bool) (xs : List A)
      → any p (order_by major minor xs) ≡ any p xs
  unfolding any order_by
  any-order_by major minor p [] = refl
  any-order_by major minor p (x ∷ xs) = ground (
    arith,
    any-insert_by major minor p x (order_by major minor xs),
    any-order_by major minor p xs,
  )

module _ (host : Host) (g t x r : String) where
  -- Every active Run of the session is among the rows that are left to converge.
  abbrev Left : List RunHead → List RunHead → Type 0
  Left rows heads =
      All (λ h. is_rival t x r h ≡ true → any (λ q. q.run_id == h.run_id) rows ≡ true) heads

  Left-none : (heads : List RunHead) → Left [] heads → any (is_rival t x r) heads ≡ false
  unfolding any
  Left-none [] l = refl
  Left-none (h ∷ heads) (l, ls) = ground (arith, Left-none heads ls)

  -- a head, ended or not
  abbrev after_turn : String → Bool → RunHead → RunHead
  after_turn now ended h =
      if ended then record h { run_status = "FAILED_TERMINAL"; updated_at = now } else h

  turn_left :
      (now : String) (row : RunHead) (rows : List RunHead) (h : RunHead) (ended : Bool)
      → head_of t row.run_id h ≡ ended
      → (is_rival t x r h ≡ true → any (λ q. q.run_id == h.run_id) (row ∷ rows) ≡ true)
      → is_rival t x r (after_turn now ended h) ≡ true
      → any (λ q. q.run_id == (after_turn now ended h).run_id) rows ≡ true
  unfolding any contains
  turn_left now row rows h true e l m = ground arith
  turn_left now row rows h false e l m =
      let k = l m in ground (arith, eq_iff row.run_id h.run_id, eq_iff h.run_id row.run_id)

  -- One turn of the loop ends the Run of its row.
  Left-converged :
      (now : String) (row : RunHead) (rows heads : List RunHead)
      → Left (row ∷ rows) heads
      → Left rows (
          update_where
            (head_of t row.run_id)
            (λ h. record h { run_status = "FAILED_TERMINAL"; updated_at = now })
            heads)
  unfolding update_where
  Left-converged now row rows [] l = tt
  Left-converged now row rows (h ∷ heads) (l, ls) = (
    turn_left now row rows h (head_of t row.run_id h) refl l,
    Left-converged now row rows heads ls,
  )

  converge_orphaned_run-Left :
      (row : RunHead) (rows : List RunHead) (db : Database)
      → Left (row ∷ rows) db.run_heads
      → Ensures (λ db'. Left rows db'.run_heads) (converge_orphaned_run host g t x row db)
  unfolding converge_orphaned_run
  converge_orphaned_run-Left row rows db l =
      let P = λ (db' : Database). Left rows db'.run_heads in
      Ensures-bind P (canonical_json host lost_payload) _ (λ j e.
        Ensures-bind P (append_event_tx host g (lost_draft host t x row j) db) _ (λ a f.
          let k =
            Ensures-ok (KeepsHeads db) (append_event_tx host g (lost_draft host t x row j) db)
              (append_event_tx-KeepsHeads host g (lost_draft host t x row j) db) f in
          Left-converged (host.now admission) row rows a.0.run_heads
            (subst (λ heads. Left (row ∷ rows) heads) (sym k) l)))

  converge_rows-Left :
      (rows : List RunHead) (db : Database)
      → Left rows db.run_heads
      → Ensures (λ db'. Left [] db'.run_heads) (converge_rows host g t x rows db)
  unfolding converge_rows
  converge_rows-Left [] db l = l
  converge_rows-Left (row ∷ rows) db l =
      let P = λ (db' : Database). Left [] db'.run_heads in
      let Q = λ (db' : Database). Left rows db'.run_heads in
      Ensures-raise_if P _ _ _ (λ gone.
        Ensures-bind P (converge_orphaned_run host g t x row db) (converge_rows host g t x rows)
          (λ db' e. converge_rows-Left rows db' (
            Ensures-ok Q (converge_orphaned_run host g t x row db)
              (converge_orphaned_run-Left row rows db l) e)))

  -- No other Run of the session is active, and none has a live lease.
  abbrev pub IsAlone : Database → Type 0
  IsAlone db =
      (any (is_rival t x r) db.run_heads ≡ false)
      × (any (is_rival_lease host t x r) db.run_worker_leases ≡ false)

  abbrev rivals : List RunHead → List RunHead
  rivals heads = order_by (λ h. h.updated_at) (λ h. h.run_id) (select (is_rival t x r) heads)

  rivals-Left : (heads : List RunHead) → Left (rivals heads) heads
  rivals-Left heads =
      All-weaken
        (λ h.
          is_rival t x r h ≡ true
          → any (λ q. q.run_id == h.run_id) (select (is_rival t x r) heads) ≡ true)
        (λ h. is_rival t x r h ≡ true → any (λ q. q.run_id == h.run_id) (rivals heads) ≡ true) heads
        (λ h k m.
          any-order_by (λ h. h.updated_at) (λ h. h.run_id) (λ q. q.run_id == h.run_id)
            (select (is_rival t x r) heads)
          ∙ k m)
        (select-seen (is_rival t x r) (λ q h. q.run_id == h.run_id) heads (λ h. eq_refl h.run_id))

  pub assert_session_run_available-IsAlone :
      (db : Database) → Ensures IsAlone (assert_session_run_available host g t x r db)
  unfolding assert_session_run_available
  assert_session_run_available-IsAlone db =
      let Q = λ (db' : Database). Left [] db'.run_heads in
      Ensures-bind IsAlone (converge_rows host g t x (rivals db.run_heads) db) _ (λ db' e.
        let l =
          Ensures-ok Q (converge_rows host g t x (rivals db.run_heads) db)
            (converge_rows-Left (rivals db.run_heads) db (rivals-Left db.run_heads)) e in
        Ensures-raise_if IsAlone (any (is_rival_lease host t x r) db'.run_worker_leases)
          session_run_active (ok db') (λ f. (Left-none db'.run_heads l, f)))
