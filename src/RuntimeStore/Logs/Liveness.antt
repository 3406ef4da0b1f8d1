-- ===== src/RuntimeStore/Logs/Liveness.antt =====
-- The append of a revision by the writer that owns the Run.
use mathlib.Core.Path.{subst}
use tsagent.Prelude.{
  ℕ, suc, ◌<◌, String, ◌≡◌, true, false, none, some, List, [], ◌∷◌, ◌++◌, refl, sym, arith, ◌&&◌,
  nat_eq, eq_iff, ◌∙◌,
}
use tsagent.Prelude.Int.{pos}
use tsagent.Prelude.Lists.{any, any-append}
use tsagent.Prelude.Result.{Result, ok}
use tsagent.RuntimeStore.Errors.{StoreErrorCode}
use tsagent.RuntimeStore.Sql.{fetch_one, count_where}
use tsagent.RuntimeStore.Sql.Laws.{map_option, fetch_one-met, count_where-one, any-select}
use tsagent.RuntimeStore.Tables.{
  Database, SqliteRuntimeStore, RunHead, RevisionRecord, Host, head_of, revision_of,
}
use tsagent.RuntimeStore.Transaction.{
  Transaction, transact, write_transaction, fetch_head, check_generation,
}
use tsagent.RuntimeStore.Revisions.{
  RevisionCall, append_revision, append_revision_tx, revision_draft, validate_write_head,
  is_expected_head, revision_record, advanced_head,
}
use tsagent.RuntimeStore.Logs.Chains.{
  RevisionChain, start, next, HasChains, EndsAt, revisions_of, revised, heads_update,
}
use tsagent.RuntimeStore.Ownership.{owner_of}

-- No revision of a chain has the number behind its last one.
RevisionChain-next_free :
    {vs : List RevisionRecord} {n : ℕ} {d : String}
    → RevisionChain vs n d
    → (m : ℕ) → n < m
    → any (λ v. nat_eq v.revision m) vs ≡ false
unfolding any
RevisionChain-next_free start m l = refl
RevisionChain-next_free (next {vs} v c e f) m l =
    ground (arith, any-append (λ x. nat_eq x.revision m) vs (v ∷ []), RevisionChain-next_free c m)

module _ (host : Host) (g : String) (c : RevisionCall) (j : String) (row : RunHead) (db : Database)
    (chains : HasChains db)
    (found : fetch_one (head_of c.tenant_id c.run_id) db.run_heads ≡ some row) where
  number_free :
      any
        (λ v. revision_of c.tenant_id c.run_id v && nat_eq v.revision (suc row.current_revision))
        db.run_resume_revisions
      ≡ false
  number_free =
      let l =
        subst
          (λ o.
            EndsAt (map_option owner_of o)
              (revisions_of c.tenant_id c.run_id db.run_resume_revisions))
          found (chains c.tenant_id c.run_id) in
      any-select (revision_of c.tenant_id c.run_id)
        (λ v. nat_eq v.revision (suc row.current_revision)) db.run_resume_revisions
      ∙ RevisionChain-next_free l (suc row.current_revision) (omega arith)

  append_revision_tx-goes_through :
      count_where (head_of c.tenant_id c.run_id) db.run_heads ≡ 1
      → is_expected_head c row ≡ true
      → validate_write_head g c.tenant_id c.session_id c.run_id c.writer_id c.fence_token
          c.expected_revision c.expected_parent_digest c.expected_store_generation db
        ≡ ok row
      → append_revision_tx host g c j db
        ≡ ok (revised host c j row db, revision_record host c j row)
  unfolding append_revision_tx
  append_revision_tx-goes_through one expected valid =
      let unique =
        count_where-one (head_of c.tenant_id c.run_id) (is_expected_head c) db.run_heads row
          (λ h e. ground arith) found one expected in
      ground (arith, number_free)

revision_draft-generation :
    (host : Host) (g : String) (c d : RevisionCall) (j : String)
    → revision_draft host g c ≡ ok (d, j)
    → check_generation g d.expected_store_generation ≡ ok tt
unfolding revision_draft
revision_draft-generation host g c d j h = ground arith

validate_write_head-passes :
    (g : String) (d : RevisionCall) (row : RunHead) (db : Database)
    → check_generation g d.expected_store_generation ≡ ok tt
    → fetch_one (head_of d.tenant_id d.run_id) db.run_heads ≡ some row
    → row.session_id ≡ d.session_id
    → row.store_generation ≡ g
    → row.current_writer_id ≡ d.writer_id
    → pos row.current_fence_token ≡ d.fence_token
    → pos row.current_revision ≡ d.expected_revision
    → row.current_digest ≡ d.expected_parent_digest
    → (validate_write_head g d.tenant_id d.session_id d.run_id d.writer_id d.fence_token
          d.expected_revision d.expected_parent_digest d.expected_store_generation db
        ≡ ok row)
      × (is_expected_head d row ≡ true)
unfolding validate_write_head fetch_head
validate_write_head-passes g d row db e found a b w t r p = (
  ground (
    arith,
    eq_iff row.session_id d.session_id,
    eq_iff row.store_generation g,
    eq_iff row.current_writer_id d.writer_id,
    eq_iff row.current_digest d.expected_parent_digest,
  ),
  ground (
    arith,
    fetch_one-met (head_of d.tenant_id d.run_id) db.run_heads row found,
    eq_iff row.current_writer_id d.writer_id,
  ),
)

transact-goes_through :
    {A B : Type 0} (host : Host) (s : SqliteRuntimeStore) (m : Result StoreErrorCode B)
    (body : B → Transaction A) (b : B) (db : Database) (a : A)
    → s.closed ≡ false
    → host.busy ≡ false
    → m ≡ ok b
    → body b s.database ≡ ok (db, a)
    → transact host s m body ≡ (record s { database = db }, ok a)
unfolding transact write_transaction
transact-goes_through host s m body b db a opened idle e f = ground arith

-- The store and the record that the append leaves, where every check passes
append_revision-revised :
    (host : Host) (s : SqliteRuntimeStore) (c d : RevisionCall) (j : String) (row : RunHead)
    → HasChains s.database
    → s.closed ≡ false
    → host.busy ≡ false
    → revision_draft host s.store_generation c ≡ ok (d, j)
    → fetch_one (head_of d.tenant_id d.run_id) s.database.run_heads ≡ some row
    → count_where (head_of d.tenant_id d.run_id) s.database.run_heads ≡ 1
    → row.session_id ≡ d.session_id
    → row.store_generation ≡ s.store_generation
    → row.current_writer_id ≡ d.writer_id
    → pos row.current_fence_token ≡ d.fence_token
    → pos row.current_revision ≡ d.expected_revision
    → row.current_digest ≡ d.expected_parent_digest
    → append_revision host s c
      ≡ (record s { database = revised host d j row s.database }, ok (revision_record host d j row))
unfolding append_revision
append_revision-revised host s c d j row chains opened idle draft found one a b w t r p =
    let g = s.store_generation in
    let (valid, expected) =
      validate_write_head-passes g d row s.database (revision_draft-generation host g c d j draft)
        found a b w t r p in
    transact-goes_through host s (revision_draft host g c)
      (λ (d', j'). append_revision_tx host g d' j') (d, j) (revised host d j row s.database)
      (revision_record host d j row) opened idle draft
      (append_revision_tx-goes_through host g d j row s.database chains found one expected valid)

-- A store that moved on by one revision of a Run: the record that was returned stands behind the
-- others, and the head names it; the writer and the token stay, and so do the events.
pub record MovedOn (host : Host) (d : RevisionCall) (j : String) (row : RunHead)
    (s s' : SqliteRuntimeStore) (v : RevisionRecord) : Type 0 where
  pub of_run : (v.tenant_id ≡ d.tenant_id) × (v.session_id ≡ d.session_id) × (v.run_id ≡ d.run_id)
  pub number : v.revision ≡ suc row.current_revision
  pub parent : v.parent_digest ≡ row.current_digest
  pub payload : (v.payload_json ≡ j) × (v.payload_digest ≡ host.sha256 j)
  pub author :
      (v.request_id ≡ d.request_id)
      × (v.writer_id ≡ d.writer_id)
      × (pos v.fence_token ≡ d.fence_token)
  pub logged : s'.database.run_resume_revisions ≡ (s.database.run_resume_revisions ++ v ∷ [])
  pub head :
      (h : RunHead) × (fetch_one (head_of d.tenant_id d.run_id) s'.database.run_heads ≡ some h)
      × (h.current_revision ≡ suc row.current_revision)
      × (h.current_digest ≡ host.sha256 j)
      × (h.current_writer_id ≡ row.current_writer_id)
      × (h.current_fence_token ≡ row.current_fence_token)
      × (h.run_status ≡ elim d.run_status [ none ↦ row.run_status | some status ↦ status ])
  pub events : s'.database.run_events ≡ s.database.run_events

revised-MovedOn :
    (host : Host) (d : RevisionCall) (j : String) (row : RunHead) (s : SqliteRuntimeStore)
    → fetch_one (head_of d.tenant_id d.run_id) s.database.run_heads ≡ some row
    → is_expected_head d row ≡ true
    → row.current_writer_id ≡ d.writer_id
    → pos row.current_fence_token ≡ d.fence_token
    → MovedOn host d j row s
        (record s { database = revised host d j row s.database })
        (revision_record host d j row)
revised-MovedOn host d j row s found expected w t = record {
  of_run = (refl, refl, refl);
  number = refl;
  parent = refl;
  payload = (refl, refl);
  author = (refl, refl, t);
  logged = refl;
  head = (
    advanced_head host d j row row,
    ground (arith, heads_update host d j row s.database d.tenant_id d.run_id),
    refl,
    refl,
    sym w,
    refl,
    ground arith,
  );
  events = refl;
}

-- The writer that holds a Run can append to it: where the store is open and idle, the arguments are
-- well formed (`d` is the call with its texts stripped, `j` the text of the payload), the Run has one
-- head, of that session and store, with the writer, token, revision and digest that the call names,
-- and the revisions are chains as in every store reached by calls, the call returns. The record that
-- it returns is added behind the others; it has the number behind the head's, the head's digest as that
-- of its parent, the payload with its SHA-256, and the request, writer and token of the call. The head
-- takes its number and digest and the status of the call, if it has one, and keeps its writer and token; the events stay.
pub append_revision-goes_through :
    (host : Host) (s : SqliteRuntimeStore) (c d : RevisionCall) (j : String) (row : RunHead)
    → HasChains s.database
    → s.closed ≡ false
    → host.busy ≡ false
    → revision_draft host s.store_generation c ≡ ok (d, j)
    → fetch_one (head_of d.tenant_id d.run_id) s.database.run_heads ≡ some row
    → count_where (head_of d.tenant_id d.run_id) s.database.run_heads ≡ 1
    → row.session_id ≡ d.session_id
    → row.store_generation ≡ s.store_generation
    → row.current_writer_id ≡ d.writer_id
    → pos row.current_fence_token ≡ d.fence_token
    → pos row.current_revision ≡ d.expected_revision
    → row.current_digest ≡ d.expected_parent_digest
    → (s' : SqliteRuntimeStore) × (v : RevisionRecord) × (append_revision host s c ≡ (s', ok v))
      × MovedOn host d j row s s' v
append_revision-goes_through host s c d j row chains opened idle draft found one a b w t r p =
    let (valid, expected) =
      validate_write_head-passes s.store_generation d row s.database
        (revision_draft-generation host s.store_generation c d j draft) found a b w t r p in
    (
      record s { database = revised host d j row s.database },
      revision_record host d j row,
      append_revision-revised host s c d j row chains opened idle draft found one a b w t r p,
      revised-MovedOn host d j row s found expected w t,
    )
