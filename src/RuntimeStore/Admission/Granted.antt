-- ===== src/RuntimeStore/Admission/Granted.antt =====
-- A worker stays alone in its session while its fence is granted.
use tsagent.Prelude.{
  ℕ, suc, String, ◌≡◌, Bool, true, false, Option, some, List, [], ◌∷◌, refl, arith, ◌==◌, eq_refl,
  Bool-cases, inl, inr, ◌∙◌, ap, ltb, if◌then◌else◌,
}
use tsagent.Prelude.Int.{ℤ, pos}
use tsagent.Prelude.Lists.{any, any-append}
use tsagent.Prelude.Result.{ok, ◌>>=◌}
use tsagent.Prelude.Ensures.{Ensures, Ensures-bind, Ensures-ok}
use tsagent.RuntimeStore.Sql.{update_where}
use tsagent.RuntimeStore.Tables.{
  Database, RunHead, WorkerLease, FenceGrant, Host, checked, lease_of, leased,
}
use tsagent.RuntimeStore.Transaction.{fetch_head}
use tsagent.RuntimeStore.Leases.{
  assert_session_run_available, renew_worker_lease_tx, is_rival, is_rival_lease, put_worker_lease,
  is_own_lease,
}
use tsagent.RuntimeStore.Fences.{acquire_fence_tx, grant_fence, insert_fence, hand_over, grant_of}
use tsagent.RuntimeStore.Handover.{takeover_fence_tx, closed_fences}
use tsagent.RuntimeStore.Admission.{IsAlone, assert_session_run_available-IsAlone}

module _ {ℓ} {A : Type ℓ} where
  -- An update whose rows fail a test afterwards adds none that passes it.
  any-update_where :
      (p q : A → Bool) (f : A → A) (xs : List A)
      → ((a : A) → q a ≡ true → p (f a) ≡ false)
      → any p xs ≡ false
      → any p (update_where q f xs) ≡ false
  unfolding any update_where
  any-update_where p q f [] k h = refl
  any-update_where p q f (x ∷ xs) k h = elim (Bool-cases (q x)) [
    | inl e ↦ ground (arith, k x e, any-update_where p q f xs k)
    | inr e ↦ ground (arith, any-update_where p q f xs k)
  ]

module _ (host : Host) (g t x r w : String) where
  renewal-IsAlone :
      {A : Type 0} (n : ℤ) (a : A) (db : Database)
      → IsAlone host g t x r db
      → Ensures {A = Database × A}
          (λ y. IsAlone host g t x r y.0)
          (renew_worker_lease_tx host t x r w n db >>= λ db'. ok (db', a))
  unfolding renew_worker_lease_tx
  renewal-IsAlone n a db (h, l) =
      let m =
        any-update_where (is_rival_lease host t x r) (is_own_lease host t x r w n)
          (λ l. record l { heartbeat_at = host.now leased; expires_at = host.lease_expiry })
          db.run_worker_leases (λ l e. ground arith) l in
      ground arith

  -- the lease of the Run itself
  abbrev own_lease : ℕ → WorkerLease
  own_lease n = record {
    tenant_id = t;
    session_id = x;
    run_id = r;
    writer_id = w;
    fence_token = n;
    heartbeat_at = host.now leased;
    expires_at = host.lease_expiry;
  }

  put_worker_lease-IsAlone :
      (n : ℕ) (db : Database)
      → IsAlone host g t x r db
      → IsAlone host g t x r (put_worker_lease host t x r w n db)
  unfolding put_worker_lease any
  put_worker_lease-IsAlone n db (h, l) =
      let m =
        any-update_where (is_rival_lease host t x r) (lease_of t r) (λ l. own_lease n)
          db.run_worker_leases (λ l e. ground (arith, eq_refl r)) l in
      (
        h,
        ground (
          arith,
          eq_refl r,
          any-append (is_rival_lease host t x r) db.run_worker_leases (own_lease n ∷ []),
        ),
      )

  insert_fence-kept :
      (n : ℕ) (db db' : Database)
      → insert_fence host t x r w n db ≡ ok db'
      → (db'.run_heads ≡ db.run_heads) × (db'.run_worker_leases ≡ db.run_worker_leases)
  unfolding insert_fence
  insert_fence-kept n db db' h = (ground arith, ground arith)

  closed-IsAlone :
      (row : RunHead) (db : Database)
      → IsAlone host g t x r db
      → IsAlone host g t x r (
          if ltb 0 row.current_fence_token
          then record db {
            run_fences =
                closed_fences t r (pos row.current_fence_token) (host.now checked) db.run_fences;
          }
          else db)
  closed-IsAlone row db (h, l) = (ground arith, ground arith)

  hand_over-alone :
      (q : String) (n : ℕ) (u : RunHead → Bool) (heads : List RunHead)
      → any (is_rival t x r) heads ≡ false
      → any (is_rival t x r) (hand_over host t r w q n u heads) ≡ false
  hand_over-alone q n u heads h =
      any-update_where (is_rival t x r) _ _ heads (λ k e. ground arith) h

  grant_fence-IsAlone :
      (q : String) (row : RunHead) (u : RunHead → Bool) (db : Database)
      → IsAlone host g t x r db
      → Ensures (λ y. IsAlone host g t x r y.0) (grant_fence host g t x r w q true row u db)
  unfolding grant_fence
  grant_fence-IsAlone q row u db (h, l) =
      let P = λ (y : Database × FenceGrant). IsAlone host g t x r y.0 in
      let n = row.current_fence_token in
      Ensures-bind P (insert_fence host t x r w (suc n) db) _ (λ db1 e.
        let (k, m) = insert_fence-kept (suc n) db db1 e in
        put_worker_lease-IsAlone (suc n)
          (record db1 { run_heads = hand_over host t r w q n u db1.run_heads })
          (
            hand_over-alone q n u db1.run_heads (ap (any (is_rival t x r)) k ∙ h),
            ap (any (is_rival_lease host t x r)) m ∙ l,
          ))

  pub acquire_fence_tx-IsAlone :
      (n : Option ℤ) (q : String) (db : Database)
      → Ensures (λ y. IsAlone host g t x r y.0) (acquire_fence_tx host g t x r w n q true db)
  unfolding acquire_fence_tx
  acquire_fence_tx-IsAlone n q db =
      let P = λ (y : Database × FenceGrant). IsAlone host g t x r y.0 in
      Ensures-bind P (fetch_head g db t r (some x)) _ (λ row e.
        Ensures-bind P (assert_session_run_available host g t x r db) _ (λ db1 f.
          let alone =
            Ensures-ok (IsAlone host g t x r) (assert_session_run_available host g t x r db)
              (assert_session_run_available-IsAlone host g t x r db) f in
          ground (
            arith,
            renewal-IsAlone (pos row.current_fence_token)
                (grant_of g t x r w row.current_fence_token row.current_revision true) db1 alone,
            grant_fence-IsAlone q row (λ h. h.current_writer_id == "") db1 alone,
          )))

  pub takeover_fence_tx-IsAlone :
      (n : ℤ) (q : String) (db : Database)
      → Ensures (λ y. IsAlone host g t x r y.0) (takeover_fence_tx host g t x r w n q true db)
  unfolding takeover_fence_tx
  takeover_fence_tx-IsAlone n q db =
      let P = λ (y : Database × FenceGrant). IsAlone host g t x r y.0 in
      Ensures-bind P (fetch_head g db t r (some x)) _ (λ row e.
        Ensures-bind P (assert_session_run_available host g t x r db) _ (λ db1 f.
          let alone =
            Ensures-ok (IsAlone host g t x r) (assert_session_run_available host g t x r db)
              (assert_session_run_available-IsAlone host g t x r db) f in
          let db2 =
            if ltb 0 row.current_fence_token
            then record db1 {
              run_fences =
                  closed_fences t r (pos row.current_fence_token) (host.now checked) db1.run_fences;
            }
            else db1 in
          let alone2 = closed-IsAlone row db1 alone in
          ground (
            arith,
            renewal-IsAlone (pos row.current_fence_token)
                (grant_of g t x r w row.current_fence_token row.current_revision true) db1 alone,
            grant_fence-IsAlone q row (λ h. true) db2 alone2,
          )))
