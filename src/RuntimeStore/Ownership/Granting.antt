-- ===== src/RuntimeStore/Ownership/Granting.antt =====
-- The transactions that create a Run and give its fence away only change its custody.
use mathlib.Core.Path.{subst₂}
use tsagent.Prelude.{
  ℕ, String, ◌≡◌, Bool, true, false, Option, none, some, List, [], ◌∷◌, ◌++◌, refl, ◌==◌, ◌&&◌,
  arith, sym, Option-cases, Bool-cases, inl, inr,
}
use tsagent.Prelude.Int.{ℤ, pos}
use tsagent.Prelude.Text.{is_empty}
use tsagent.Prelude.Lists.{any}
use tsagent.Prelude.Result.{Result, ok, ◌>>=◌}
use tsagent.Prelude.Ensures.{Ensures, Ensures-bind, Ensures-ok, Ensures-weaken, Ensures-if}
use tsagent.RuntimeStore.Sql.{fetch_one, update_where}
use tsagent.RuntimeStore.Sql.Laws.{fetch_one-append}
use tsagent.RuntimeStore.Tables.{Database, RunHead, Host, head_of}
use tsagent.RuntimeStore.Fences.{
  hand_over, insert_fence, grant_fence, fresh_head, initialize_run_tx, acquire_fence_tx,
  under_lease, grant_of,
}
use tsagent.RuntimeStore.Leases.{
  put_worker_lease, assert_session_run_available, renew_worker_lease_tx,
}
use tsagent.RuntimeStore.Errors.{StoreErrorCode}
use tsagent.RuntimeStore.Transaction.{fetch_head}
use tsagent.RuntimeStore.Ownership.{Ownership, Handling, stay, create, grant, ownership, owner_of}
use tsagent.RuntimeStore.Ownership.Statements.{KeepsOwner, assert_session_run_available-KeepsOwner}

pub Handling-cast : {u u' v v' : Option Ownership} → u ≡ u' → v ≡ v' → Handling u v → Handling u' v'
Handling-cast p q m = subst₂ Handling p q m

pub Handling-stay : {u v : Option Ownership} → v ≡ u → Handling u v
Handling-stay {u} e = Handling-cast refl (sym e) (stay u)

-- An update of heads is a step of a relation that every Run may skip, if it is one on every row
-- that it changes.
module _ (R : Option Ownership → Option Ownership → Type 0)
    (skip : (v : Option Ownership) → R v v) where
  step-cast : {u u' v v' : Option Ownership} → u ≡ u' → v ≡ v' → R u v → R u' v'
  step-cast p q m = subst₂ R p q m

  step-skip : {u v : Option Ownership} → v ≡ u → R u v
  step-skip {u} e = step-cast refl (sym e) (skip u)

  pub step-update_where :
      (tenant run : String) (q : RunHead → Bool) (f : RunHead → RunHead) (heads : List RunHead)
      → ((h : RunHead) → head_of tenant run (f h) ≡ head_of tenant run h)
      → ((h : RunHead)
          → head_of tenant run h ≡ true
          → fetch_one (head_of tenant run) heads ≡ some h
          → q h ≡ true
          → R (some (owner_of h)) (some (owner_of (f h))))
      → R (ownership tenant run heads) (ownership tenant run (update_where q f heads))
  unfolding fetch_one update_where
  step-update_where tenant run q f [] k m = skip none
  step-update_where tenant run q f (h ∷ heads) k m = elim (Bool-cases (head_of tenant run h)) [
    | inl e ↦ elim (Bool-cases (q h)) [
      | inl c ↦ step-cast (rw e) (ground (arith, k h)) (m h e (rw e) c)
      | inr c ↦ step-skip (ground arith)
    ]
    | inr e ↦
        step-cast (rw e) (ground (arith, k h))
          (step-update_where tenant run q f heads k (λ x a b c. m x a (ground arith) c))
  ]

pub Handling-update_where :
    (tenant run : String) (q : RunHead → Bool) (f : RunHead → RunHead) (heads : List RunHead)
    → ((h : RunHead) → head_of tenant run (f h) ≡ head_of tenant run h)
    → ((h : RunHead)
        → head_of tenant run h ≡ true
        → fetch_one (head_of tenant run) heads ≡ some h
        → q h ≡ true
        → Handling (some (owner_of h)) (some (owner_of (f h))))
    → Handling (ownership tenant run heads) (ownership tenant run (update_where q f heads))
Handling-update_where = step-update_where Handling stay

-- A transaction of a value, seen for one Run
abbrev pub Handled : {A : Type 0} → String → String → Database → Database × A → Type 0
Handled tenant run db x =
    Handling (ownership tenant run db.run_heads) (ownership tenant run x.0.run_heads)

hand_over-Handling :
    (tenant run : String) (host : Host) (scope target writer request : String) (token : ℕ)
    (unowned : RunHead → Bool) (heads : List RunHead)
    → is_empty writer ≡ false
    → Handling
        (ownership tenant run heads)
        (ownership tenant run (hand_over host scope target writer request token unowned heads))
hand_over-Handling tenant run host scope target writer request token unowned heads n =
    Handling-update_where tenant run _ _ heads (λ h. refl)
      (λ h met found c. Handling-cast refl (ground arith) (grant (owner_of h) writer n))

pub grant_fence-Handled :
    (tenant run : String) (host : Host) (generation scope session target writer request : String)
    (worker_lease : Bool) (row : RunHead) (unowned : RunHead → Bool) (db : Database)
    → is_empty writer ≡ false
    → Ensures (Handled tenant run db) (
        grant_fence host generation scope session target writer request worker_lease row unowned db)
unfolding grant_fence insert_fence put_worker_lease
grant_fence-Handled tenant run host generation scope session target writer request worker_lease row
      unowned db n =
    let m =
      hand_over-Handling tenant run host scope target writer request row.current_fence_token unowned
        db.run_heads n in
    ground (arith, m)

fresh-Handled :
    (tenant run : String) (host : Host) (generation scope session target request status : String)
    (heads : List RunHead)
    → Handling (ownership tenant run heads) (
        ownership tenant run
          (heads ++ fresh_head host generation scope session target request status ∷ []))
fresh-Handled tenant run host generation scope session target request status heads =
    elim (Option-cases (fetch_one (head_of tenant run) heads)) [
      | inl e ↦ elim (Bool-cases (scope == tenant && target == run)) [
        | inl c ↦
            Handling-cast (ground arith)
              (ground (
                arith,
                fetch_one-append (head_of tenant run) heads
                    (fresh_head host generation scope session target request status),
              ))
              create
        | inr c ↦ Handling-stay (
            ground (
              arith,
              fetch_one-append (head_of tenant run) heads
                  (fresh_head host generation scope session target request status),
            ))
      ]
      | inr (h, e) ↦ Handling-stay (
          ground (
            arith,
            fetch_one-append (head_of tenant run) heads
                (fresh_head host generation scope session target request status),
          ))
    ]

pub initialize_run_tx-Handled :
    (tenant run : String) (host : Host) (generation scope session target request status : String)
    (db : Database)
    → Ensures
        (Handled tenant run db)
        (initialize_run_tx host generation scope session target request status db)
unfolding initialize_run_tx
initialize_run_tx-Handled tenant run host generation scope session target request status db =
    Ensures-if (Handled tenant run db) (any (head_of scope target) db.run_heads) _ _
      (λ e.
        Ensures-bind (Handled tenant run db) (fetch_head generation db scope target (some session))
          _ (λ h f. stay _))
      (λ e.
        Ensures-bind (Handled tenant run db)
          (fetch_head generation
            (record db {
              run_heads =
                  db.run_heads
                  ++ fresh_head host generation scope session target request status ∷ [];
            })
            scope target (some session))
          _
          (λ h f.
            fresh-Handled tenant run host generation scope session target request status
              db.run_heads))

-- A statement that keeps the owners, and a move behind it
pub after_kept :
    {A : Type 0} (tenant run : String) (db db' : Database)
    (m : Result StoreErrorCode (Database × A))
    → KeepsOwner tenant run db db'
    → Ensures (Handled tenant run db') m
    → Ensures (Handled tenant run db) m
after_kept tenant run db db' m k e =
    Ensures-weaken (Handled tenant run db') (Handled tenant run db) m e
      (λ x h. Handling-cast k refl h)

pub admission-KeepsOwner :
    (tenant run : String) (host : Host) (generation scope session target : String)
    (worker_lease : Bool) (db : Database)
    → Ensures (KeepsOwner tenant run db) (
        under_lease worker_lease
          (assert_session_run_available host generation scope session target)
          db)
admission-KeepsOwner tenant run host generation scope session target true db =
    assert_session_run_available-KeepsOwner tenant run host generation scope session target db
admission-KeepsOwner tenant run host generation scope session target false db = refl

pub renewal-Handled :
    (tenant run : String) (host : Host) (scope session target writer : String) (token : ℤ)
    (worker_lease : Bool) {A : Type 0} (g : A) (db : Database)
    → Ensures (Handled tenant run db) (
        under_lease worker_lease (renew_worker_lease_tx host scope session target writer token) db
        >>= λ db'. ok (db', g))
unfolding renew_worker_lease_tx
renewal-Handled tenant run host scope session target writer token worker_lease g db =
    ground (arith, stay (ownership tenant run db.run_heads))

pub acquire_fence_tx-Handled :
    (tenant run : String) (host : Host) (generation scope session target writer : String)
    (expected : Option ℤ) (request : String) (worker_lease : Bool) (db : Database)
    → is_empty writer ≡ false
    → Ensures (Handled tenant run db) (
        acquire_fence_tx host generation scope session target writer expected request worker_lease
          db)
unfolding acquire_fence_tx
acquire_fence_tx-Handled tenant run host generation scope session target writer expected request
      worker_lease db n =
    Ensures-bind (Handled tenant run db) (fetch_head generation db scope target (some session)) _
      (λ row e.
        Ensures-bind (Handled tenant run db)
          (under_lease worker_lease
            (assert_session_run_available host generation scope session target) db)
          _
          (λ db1 f.
            after_kept tenant run db db1 _
              (Ensures-ok (KeepsOwner tenant run db) _
                (admission-KeepsOwner tenant run host generation scope session target worker_lease
                  db)
                f)
              (ground (
                arith,
                renewal-Handled tenant run host scope session target writer
                    (pos row.current_fence_token) worker_lease
                    (grant_of generation scope session target writer row.current_fence_token
                      row.current_revision true)
                    db1,
                grant_fence-Handled tenant run host generation scope session target writer request
                    worker_lease row (λ h. h.current_writer_id == "") db1 n,
              ))))
