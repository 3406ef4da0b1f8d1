-- ===== src/RuntimeStore/Ownership/Safety.antt =====
-- A writer whose fence is gone writes nothing any more.
use tsagent.Prelude.{
  ℕ, String, ◌≡◌, true, false, some, List, refl, arith, not, ap, sym, ◌∙◌, Bool-cases, inl, inr,
  eq_iff,
}
use mathlib.Core.Path.{subst}
use tsagent.Prelude.Int.{ℤ, pos, is_positive}
use tsagent.Checkpoint.Json.{object}
use tsagent.Prelude.Text.{is_empty, strip}
use tsagent.Prelude.Result.{Result, ok, err}
use tsagent.Prelude.Ensures.{Ensures, Ensures-bind, Ensures-never, Ensures-ok, Ensures-raise_if}
use tsagent.RuntimeStore.Errors.{StoreErrorCode, store_closed, store_busy}
use tsagent.RuntimeStore.Sql.{fetch_one}
use tsagent.RuntimeStore.Sql.Laws.{map_option}
use tsagent.RuntimeStore.Tables.{Database, SqliteRuntimeStore, Host, head_of, RunHead}
use tsagent.RuntimeStore.Transaction.{
  require_text, transact, Transaction, write_transaction, fetch_head, fetch_head-found,
  canonical_json, check_generation, require_text-strip, require_text-seen,
}
use tsagent.RuntimeStore.Leases.{is_stale}
use tsagent.RuntimeStore.Revisions.{
  RevisionCall, append_revision, append_revision_tx, revision_draft, validate_write_head,
}
use tsagent.RuntimeStore.Revisions.Checks.{validate_write_head-ok}
use tsagent.RuntimeStore.Transitions.{
  TransitionCall, transition_run_with_event, transition_tx, transition_draft,
}
use tsagent.RuntimeStore.Calls.{Call, run_calls}
use tsagent.RuntimeStore.Ownership.{Lost, ownership, owner_of}
use tsagent.RuntimeStore.Ownership.Machine.{Moves-Lost}
use tsagent.RuntimeStore.Ownership.Refinement.{owner, run_calls-Moves}

-- A call that raises, and leaves the store as it was
abbrev pub Refused :
    {A : Type 0} → SqliteRuntimeStore → SqliteRuntimeStore × Result StoreErrorCode A → Type 0
Refused s r = (e : StoreErrorCode) × (r ≡ (s, err e))

transact-Refused :
    {A B : Type 0} (host : Host) (s : SqliteRuntimeStore) (m : Result StoreErrorCode B)
    (body : B → Transaction A)
    → ((b : B) → m ≡ ok b → Ensures (λ x. ⊥) (body b s.database))
    → Refused s (transact host s m body)
unfolding transact write_transaction
transact-Refused host s (err e) body h = (e, refl)
transact-Refused host s (ok b) body h = elim (Bool-cases s.closed) [
  | inl c ↦ (store_closed, ground arith)
  | inr c ↦ elim (Bool-cases host.busy) [
    | inl d ↦ (store_busy, ground arith)
    | inr d ↦ (let (e, f) = Ensures-never (body b s.database) (h b refl) in (e, ground arith))
  ]
]

-- A head that does not record the fence of a writer is stale to that writer.
Lost-is_stale :
    (w : String) (k : ℕ) (n : ℤ) (tenant run : String) (heads : List RunHead) (h : RunHead)
    → n ≡ pos k
    → Lost w k (ownership tenant run heads)
    → fetch_one (head_of tenant run) heads ≡ some h
    → is_stale w n h ≡ true
Lost-is_stale w k n tenant run heads h e l f =
    let l' = subst (λ o. Lost w k (map_option owner_of o)) f l in
    ground (arith, eq_iff h.current_writer_id w)

append_revision_tx-never :
    (host : Host) (generation : String) (c : RevisionCall) (j : String) (k : ℕ) (db : Database)
    → c.fence_token ≡ pos k
    → Lost c.writer_id k (ownership c.tenant_id c.run_id db.run_heads)
    → Ensures (λ x. ⊥) (append_revision_tx host generation c j db)
unfolding append_revision_tx
append_revision_tx-never host generation c j k db e l =
    Ensures-bind (λ x. ⊥)
      (validate_write_head generation c.tenant_id c.session_id c.run_id c.writer_id c.fence_token
        c.expected_revision c.expected_parent_digest c.expected_store_generation db)
      _
      (λ row f.
        let (found, fresh, at_revision, at_digest) = validate_write_head-ok generation c row db f in
        absurd (
          cc (
            fresh,
            Lost-is_stale c.writer_id k c.fence_token c.tenant_id c.run_id db.run_heads row e l
                found,
          )))

transition_tx-never :
    (host : Host) (generation : String) (c : TransitionCall) (j : String) (k : ℕ) (db : Database)
    → c.fence_token ≡ pos k
    → Lost c.writer_id k (ownership c.tenant_id c.run_id db.run_heads)
    → Ensures (λ x. ⊥) (transition_tx host generation c j db)
unfolding transition_tx
transition_tx-never host generation c j k db e l =
    Ensures-bind (λ x. ⊥) (fetch_head generation db c.tenant_id c.run_id (some c.session_id)) _
      (λ row f.
        let found = fetch_head-found generation db c.tenant_id c.run_id (some c.session_id) row f in
        let stale =
          Lost-is_stale c.writer_id k c.fence_token c.tenant_id c.run_id db.run_heads row e l
            found in
        ground arith)

-- what the drafts keep of the arguments
revision_draft-kept :
    (host : Host) (generation : String) (c d : RevisionCall) (j : String)
    → revision_draft host generation c ≡ ok (d, j)
    → (d.writer_id ≡ strip c.writer_id)
      × (d.tenant_id ≡ strip c.tenant_id)
      × (d.run_id ≡ strip c.run_id)
      × (d.fence_token ≡ c.fence_token)
      × (is_empty (strip c.writer_id) ≡ false)
unfolding revision_draft require_text
revision_draft-kept host generation c d j h =
    (ground arith, ground arith, ground arith, ground arith, ground arith)

-- what the draft of a transition keeps of its call
abbrev SameTransition : TransitionCall → TransitionCall × String → Type 0
SameTransition c x =
    (x.0.writer_id ≡ strip c.writer_id)
    × (x.0.tenant_id ≡ strip c.tenant_id)
    × (x.0.run_id ≡ strip c.run_id)
    × (x.0.fence_token ≡ c.fence_token)
    × (is_empty (strip c.writer_id) ≡ false)

transition_draft-kept :
    (host : Host) (generation : String) (c : TransitionCall)
    → Ensures (SameTransition c) (transition_draft host generation c)
unfolding transition_draft
transition_draft-kept host generation c =
    let P = SameTransition c in
    Ensures-bind P (require_text c.tenant_id) _ (λ tenant e1.
      Ensures-bind P (require_text c.session_id) _ (λ session e2.
        Ensures-bind P (require_text c.run_id) _ (λ run e3.
          Ensures-bind P (require_text c.run_status) _ (λ status e4.
            Ensures-bind P (require_text c.event_id) _ (λ event_id e5.
              Ensures-bind P (require_text c.event_type) _ (λ event_type e6.
                Ensures-bind P (require_text c.timestamp) _ (λ timestamp e7.
                  Ensures-bind P (require_text c.writer_id) _ (λ writer e8.
                    Ensures-bind P (require_text c.request_id) _ (λ request e9.
                      Ensures-raise_if P (not (is_positive c.fence_token)) _ _ (λ positive.
                        Ensures-bind P (canonical_json host (object c.payload)) _
                          (λ payload_json e10.
                            Ensures-bind P (check_generation generation c.expected_store_generation)
                              _
                              (λ u e11. (
                                require_text-strip c.writer_id e8,
                                require_text-strip c.tenant_id e1,
                                require_text-strip c.run_id e3,
                                refl,
                                require_text-seen c.writer_id e8,
                              )))))))))))))

Lost-at :
    {writer tenant run w t r : String} (k : ℕ) (s : SqliteRuntimeStore)
    → w ≡ writer
    → t ≡ tenant
    → r ≡ run
    → Lost writer k (owner s tenant run)
    → Lost w k (owner s t r)
Lost-at {tenant = tenant} {run} {w} {t} k s a b c l =
    subst (λ x. Lost w k (owner s t x)) (sym c)
      (subst (λ x. Lost w k (owner s x run)) (sym b)
        (subst (λ x. Lost x k (owner s tenant run)) (sym a) l))

-- A writer whose fence of a Run is gone cannot append a revision to it, nor change its status,
-- whatever calls of any writers have come since: the call raises and the store stays as it is. The
-- fence of a writer and token is gone when the Run records that token for another writer, or for
-- none, or a greater token; `s` is any store in which it is gone.
pub run_calls-Refused :
    (host : Host) (s : SqliteRuntimeStore) (calls : List (Host × Call)) (writer tenant run : String)
    (k : ℕ) (c : RevisionCall) (d : TransitionCall)
    → Lost writer k (owner s tenant run)
    → (strip c.writer_id ≡ writer)
      × (strip c.tenant_id ≡ tenant)
      × (strip c.run_id ≡ run)
      × (c.fence_token ≡ pos k)
    → (strip d.writer_id ≡ writer)
      × (strip d.tenant_id ≡ tenant)
      × (strip d.run_id ≡ run)
      × (d.fence_token ≡ pos k)
    → Refused (run_calls s calls) (append_revision host (run_calls s calls) c)
      × Refused (run_calls s calls) (transition_run_with_event host (run_calls s calls) d)
unfolding append_revision transition_run_with_event
run_calls-Refused host s calls writer tenant run k c d lost (c1, c2, c3, c4) (d1, d2, d3, d4) =
    let s' = run_calls s calls in
    let gone = λ (n : is_empty writer ≡ false).
      Moves-Lost writer k n (run_calls-Moves s calls tenant run) lost in
    (
      transact-Refused host s' (revision_draft host s'.store_generation c) _ (λ (x, j) e.
          let (w, t, r, n, seen) = revision_draft-kept host s'.store_generation c x j e in
          append_revision_tx-never host s'.store_generation x j k s'.database (n ∙ c4)
            (Lost-at k s' (w ∙ c1) (t ∙ c2) (r ∙ c3) (gone (ap is_empty (sym c1) ∙ seen)))),
      transact-Refused host s' (transition_draft host s'.store_generation d) _ (λ (x, j) e.
          let (w, t, r, n, seen) =
            Ensures-ok (SameTransition d) (transition_draft host s'.store_generation d)
              (transition_draft-kept host s'.store_generation d) e in
          transition_tx-never host s'.store_generation x j k s'.database (n ∙ d4)
            (Lost-at k s' (w ∙ d1) (t ∙ d2) (r ∙ d3) (gone (ap is_empty (sym d1) ∙ seen)))),
    )
