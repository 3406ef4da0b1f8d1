-- ===== src/RuntimeStore/Admission/Exclusive.antt =====
-- A worker that has been given the fence of a Run is alone in its session.
use mathlib.Core.Path.{subst}
use tsagent.Prelude.{String, ◌≡◌, true, false, Option, refl, arith}
use tsagent.Prelude.Int.{ℤ}
use tsagent.Prelude.Lists.{any}
use tsagent.Prelude.Result.{Result, ok, err, ◌>>=◌}
use tsagent.Prelude.Text.{strip}
use tsagent.Prelude.Ensures.{Ensures, Ensures-weaken}
use tsagent.RuntimeStore.Errors.{StoreErrorCode}
use tsagent.RuntimeStore.Tables.{Database, SqliteRuntimeStore, FenceGrant, Host}
use tsagent.RuntimeStore.Transaction.{
  Transaction, require_writer, require_text, check_generation, transact, write_transaction,
}
use tsagent.RuntimeStore.Leases.{is_rival, is_rival_lease}
use tsagent.RuntimeStore.Fences.{acquire_fence, acquire_fence_tx}
use tsagent.RuntimeStore.Handover.{takeover_fence, takeover_fence_tx}
use tsagent.RuntimeStore.Admission.{IsAlone}
use tsagent.RuntimeStore.Admission.Granted.{acquire_fence_tx-IsAlone, takeover_fence_tx-IsAlone}

-- Ensured of the transaction, ensured of the method
granted :
    {A B : Type 0} (P : Database → Type 0) (host : Host) (s s' : SqliteRuntimeStore)
    (m : Result StoreErrorCode B) (body : B → Transaction A) (a : A)
    → ((b : B) → m ≡ ok b → Ensures (λ y. P y.0) (body b s.database))
    → transact host s m body ≡ (s', ok a)
    → P s'.database
unfolding transact write_transaction
granted P host s s' (err e) body a h k = absurd cc
granted P host s s' (ok b) body a h k = let m = h b refl in ground arith

scope_of :
    (generation tenant session run writer : String) (expected : Option String)
    (b : String × String × String × String)
    → (require_writer tenant session run writer >>= λ scope.
        check_generation generation expected >>= λ _. ok scope)
      ≡ ok b
    → (b.0 ≡ strip tenant) × (b.1 ≡ strip session) × (b.2 ≡ strip run)
unfolding require_writer require_text
scope_of generation tenant session run writer expected b h =
    (ground arith, ground arith, ground arith)

-- No other Run of the session is active behind the call, and none has a lease that runs on at the
-- time of the call.
abbrev pub HasSessionAlone : Host → String → String → String → Database → Type 0
HasSessionAlone host tenant session run db =
    (any (is_rival tenant session run) db.run_heads ≡ false)
    × (any (is_rival_lease host tenant session run) db.run_worker_leases ≡ false)

alone_at :
    (host : Host) (g tenant session run t x r : String) (db : Database)
    → (t ≡ tenant) × (x ≡ session) × (r ≡ run)
    → IsAlone host g t x r db
    → HasSessionAlone host tenant session run db
alone_at host g tenant session run t x r db (a, b, c) alone =
    subst (λ z. HasSessionAlone host z session run db) a
      (subst (λ z. HasSessionAlone host t z run db) b
        (subst (λ z. HasSessionAlone host t x z db) c alone))

-- A worker that acquires the fence of a Run with a lease is alone in its session: every other Run of
-- the session is behind the call in no status of work (CREATED, RUNNING, CANCELLING), since those
-- whose workers are gone have been ended, and none has a lease that is live when the session is looked
-- at.
pub acquire_fence-alone :
    (host : Host) (s s' : SqliteRuntimeStore) (tenant session run writer : String)
    (expected : Option ℤ) (request : String) (generation : Option String) (a : FenceGrant)
    → acquire_fence host s tenant session run writer expected request generation true ≡ (s', ok a)
    → HasSessionAlone host (strip tenant) (strip session) (strip run) s'.database
unfolding acquire_fence
acquire_fence-alone host s s' tenant session run writer expected request generation a h =
    granted (HasSessionAlone host (strip tenant) (strip session) (strip run)) host s s'
      (require_writer tenant session run writer >>= λ scope.
        check_generation s.store_generation generation >>= λ _. ok scope)
      (λ (t, x, r, w). acquire_fence_tx host s.store_generation t x r w expected request true) a
      (λ (t, x, r, w) e.
        Ensures-weaken (λ y. IsAlone host s.store_generation t x r y.0)
          (λ y. HasSessionAlone host (strip tenant) (strip session) (strip run) y.0)
          (acquire_fence_tx host s.store_generation t x r w expected request true s.database)
          (acquire_fence_tx-IsAlone host s.store_generation t x r w expected request s.database)
          (λ y.
            alone_at host s.store_generation (strip tenant) (strip session) (strip run) t x r y.0
              (scope_of s.store_generation tenant session run writer generation (t, x, r, w) e)))
      h

-- A worker that takes the fence of a Run over with a lease is alone in its session: every other Run of
-- the session is behind the call in no status of work (CREATED, RUNNING, CANCELLING), and none has a
-- lease that is live when the session is looked at.
pub takeover_fence-alone :
    (host : Host) (s s' : SqliteRuntimeStore) (tenant session run writer : String) (expected : ℤ)
    (request : String) (generation : Option String) (a : FenceGrant)
    → takeover_fence host s tenant session run writer expected request generation true ≡ (s', ok a)
    → HasSessionAlone host (strip tenant) (strip session) (strip run) s'.database
unfolding takeover_fence
takeover_fence-alone host s s' tenant session run writer expected request generation a h =
    granted (HasSessionAlone host (strip tenant) (strip session) (strip run)) host s s'
      (require_writer tenant session run writer >>= λ scope.
        check_generation s.store_generation generation >>= λ _. ok scope)
      (λ (t, x, r, w). takeover_fence_tx host s.store_generation t x r w expected request true) a
      (λ (t, x, r, w) e.
        Ensures-weaken (λ y. IsAlone host s.store_generation t x r y.0)
          (λ y. HasSessionAlone host (strip tenant) (strip session) (strip run) y.0)
          (takeover_fence_tx host s.store_generation t x r w expected request true s.database)
          (takeover_fence_tx-IsAlone host s.store_generation t x r w expected request s.database)
          (λ y.
            alone_at host s.store_generation (strip tenant) (strip session) (strip run) t x r y.0
              (scope_of s.store_generation tenant session run writer generation (t, x, r, w) e)))
      h
