-- ===== src/RuntimeStore/Logs/Chains.antt =====
-- The revisions of a Run form one chain of digests that ends at its head.
use mathlib.Core.Path.{subst, subst₂}
use tsagent.Prelude.{
  ℕ, suc, String, ◌≡◌, true, false, Option, none, some, List, [], ◌∷◌, ◌++◌, refl, arith, ◌==◌,
  ◌&&◌, eq_iff, eq_refl, Option-cases, Bool-cases, inl, inr, ◌∙◌, sym, not, nat_eq, if◌then◌else◌,
}
use tsagent.Prelude.Lists.{select}
use tsagent.Prelude.Result.{Result, ok, err}
use tsagent.Prelude.Ensures.{Ensures, Ensures-bind, Ensures-raise_if}
use tsagent.RuntimeStore.Errors.{StoreErrorCode, revision_conflict}
use tsagent.RuntimeStore.Sql.{count_where, fetch_one, update_where}
use tsagent.RuntimeStore.Sql.Laws.{map_option, fetch_one-update_where, fetch_one-met, select-append}
use tsagent.RuntimeStore.Tables.{Database, RunHead, RevisionRecord, Host, head_of, revision_of}
use tsagent.RuntimeStore.Revisions.{
  RevisionCall, append_revision_tx, validate_write_head, is_expected_head, advanced_head,
  revision_record, insert_revision,
}
use tsagent.RuntimeStore.Revisions.Checks.{validate_write_head-ok}
use tsagent.RuntimeStore.Ownership.{
  Ownership, Handling, stay, create, grant, release, ownership, owner_of,
}

-- A list of revisions, with the number and the digest of the last one
pub data RevisionChain : List RevisionRecord → ℕ → String → Type 0 where
  start : RevisionChain [] 0 ""
  next :
      {vs : List RevisionRecord} {n : ℕ} {d : String} (v : RevisionRecord)
      → RevisionChain vs n d
      → v.revision ≡ suc n
      → v.parent_digest ≡ d
      → RevisionChain (vs ++ v ∷ []) (suc n) v.payload_digest

-- the revisions of a Run in the order of their insertion
abbrev pub revisions_of : String → String → List RevisionRecord → List RevisionRecord
revisions_of tenant run rows = select (revision_of tenant run) rows

-- A Run that does not exist has no revisions; those of another one end at its head.
abbrev pub EndsAt : Option Ownership → List RevisionRecord → Type 0
EndsAt none vs = vs ≡ []
EndsAt (some o) vs = RevisionChain vs o.revision o.digest

abbrev pub HasChain : Database → String → String → Type 0
HasChain db tenant run =
    EndsAt (ownership tenant run db.run_heads) (revisions_of tenant run db.run_resume_revisions)

-- The chains of all Runs
abbrev pub HasChains : Database → Type 0
HasChains db = (tenant run : String) → HasChain db tenant run

Handling-EndsAt :
    {u v : Option Ownership} (vs : List RevisionRecord) → Handling u v → EndsAt u vs → EndsAt v vs
Handling-EndsAt vs (stay v) h = h
Handling-EndsAt vs create h = subst (λ x. RevisionChain x 0 "") (sym h) start
Handling-EndsAt vs (grant o w e) h = h
Handling-EndsAt vs (release o) h = h

-- The database behind the append of a revision
abbrev pub revised : Host → RevisionCall → String → RunHead → Database → Database
revised host c j row db = record db {
  run_heads = update_where (is_expected_head c) (advanced_head host c j row) db.run_heads;
  run_resume_revisions = db.run_resume_revisions ++ revision_record host c j row ∷ [];
}

module _ (host : Host) (c : RevisionCall) (j : String) (row : RunHead) (db : Database) where
  pub heads_update :
      (tenant run : String)
      → fetch_one
          (head_of tenant run)
          (update_where (is_expected_head c) (advanced_head host c j row) db.run_heads)
        ≡ map_option
            (λ h. if is_expected_head c h then advanced_head host c j row h else h)
            (fetch_one (head_of tenant run) db.run_heads)
  heads_update tenant run =
      fetch_one-update_where (head_of tenant run) (is_expected_head c) (advanced_head host c j row)
        db.run_heads (λ h. refl)

  -- The head of another Run is none that the update names.
  kept_elsewhere :
      (tenant run : String)
      → (c.tenant_id == tenant && c.run_id == run) ≡ false
      → map_option
          (λ h. if is_expected_head c h then advanced_head host c j row h else h)
          (fetch_one (head_of tenant run) db.run_heads)
        ≡ fetch_one (head_of tenant run) db.run_heads
  kept_elsewhere tenant run other =
      elim (Option-cases (fetch_one (head_of tenant run) db.run_heads)) [
        | inl e ↦ ground arith
        | inr (h, e) ↦ ground (
          arith,
          fetch_one-met (head_of tenant run) db.run_heads h e,
          eq_iff h.tenant_id c.tenant_id,
          eq_iff h.tenant_id tenant,
          eq_iff c.tenant_id tenant,
          eq_iff h.run_id c.run_id,
          eq_iff h.run_id run,
          eq_iff c.run_id run,
        )
      ]

  revised_here :
      fetch_one (head_of c.tenant_id c.run_id) db.run_heads ≡ some row
      → is_expected_head c row ≡ true
      → HasChain db c.tenant_id c.run_id
      → HasChain (revised host c j row db) c.tenant_id c.run_id
  revised_here found expected chain =
      let v = revision_record host c j row in
      let l =
        subst
          (λ o.
            EndsAt (map_option owner_of o)
              (revisions_of c.tenant_id c.run_id db.run_resume_revisions))
          found chain in
      subst₂ (λ o vs. EndsAt (map_option owner_of o) vs) {x = some (advanced_head host c j row row)}
        {u = revisions_of c.tenant_id c.run_id db.run_resume_revisions ++ v ∷ []}
        (ground (arith, heads_update c.tenant_id c.run_id))
        (ground (
          arith,
          select-append (revision_of c.tenant_id c.run_id) db.run_resume_revisions v,
          eq_refl c.tenant_id,
          eq_refl c.run_id,
        ))
        (next v l refl refl)

  revised_elsewhere :
      (tenant run : String)
      → (c.tenant_id == tenant && c.run_id == run) ≡ false
      → HasChain db tenant run
      → HasChain (revised host c j row db) tenant run
  revised_elsewhere tenant run other chain =
      subst₂ (λ o vs. EndsAt (map_option owner_of o) vs)
        (sym (heads_update tenant run ∙ kept_elsewhere tenant run other))
        (ground (
          arith,
          select-append (revision_of tenant run) db.run_resume_revisions
              (revision_record host c j row),
        ))
        chain

  revised-HasChains :
      fetch_one (head_of c.tenant_id c.run_id) db.run_heads ≡ some row
      → is_expected_head c row ≡ true
      → HasChains db
      → HasChains (revised host c j row db)
  revised-HasChains found expected chains tenant run =
      elim (Bool-cases (c.tenant_id == tenant && c.run_id == run)) [
        | inl e ↦
            subst₂ (λ t r. HasChain (revised host c j row db) t r)
              (ground (arith, eq_iff c.tenant_id tenant)) (ground (arith, eq_iff c.run_id run))
              (revised_here found expected (chains c.tenant_id c.run_id))
        | inr e ↦ revised_elsewhere tenant run e (chains tenant run)
      ]

inserted :
    (host : Host) (c : RevisionCall) (j : String) (row : RunHead) (rows vs : List RevisionRecord)
    → insert_revision host c j row rows ≡ ok vs
    → vs ≡ rows ++ revision_record host c j row ∷ []
inserted host c j row rows vs h = ground arith

pub append_revision_tx-HasChains :
    (host : Host) (g : String) (c : RevisionCall) (j : String) (db : Database)
    → HasChains db
    → Ensures (λ y. HasChains y.0) (append_revision_tx host g c j db)
unfolding append_revision_tx
append_revision_tx-HasChains host g c j db chains =
    let P = λ (y : Database × RevisionRecord). HasChains y.0 in
    Ensures-bind P
      (validate_write_head g c.tenant_id c.session_id c.run_id c.writer_id c.fence_token
        c.expected_revision c.expected_parent_digest c.expected_store_generation db)
      _
      (λ row e.
        let (found, fresh, at_revision, at_digest) = validate_write_head-ok g c row db e in
        let chains' =
          revised-HasChains host c j row db found
            (ground (arith, fetch_one-met (head_of c.tenant_id c.run_id) db.run_heads row found))
            chains in
        Ensures-bind P (insert_revision host c j row db.run_resume_revisions) _ (λ rows f.
          Ensures-raise_if P (not (nat_eq (count_where (is_expected_head c) db.run_heads) 1))
            revision_conflict
            (ok (
              record (revised host c j row db) { run_resume_revisions = rows },
              revision_record host c j row,
            ))
            (λ one.
              subst (λ x. HasChains (record (revised host c j row db) { run_resume_revisions = x }))
                (sym (inserted host c j row db.run_resume_revisions rows f)) chains')))

-- A transaction that only changes the custody of Runs keeps the chains.
pub handled-HasChains :
    {A : Type 0} (db : Database) (m : Result StoreErrorCode (Database × A))
    → ((tenant run : String)
        → Ensures
            (λ y. Handling (ownership tenant run db.run_heads) (ownership tenant run y.0.run_heads))
            m)
    → Ensures (λ y. y.0.run_resume_revisions ≡ db.run_resume_revisions) m
    → Ensures (λ y. HasChains db → HasChains y.0) m
handled-HasChains db (err e) h k = tt
handled-HasChains db (ok (db', a)) h k = λ chains tenant run.
    subst (λ vs. EndsAt (ownership tenant run db'.run_heads) (revisions_of tenant run vs)) (sym k)
      (Handling-EndsAt (revisions_of tenant run db.run_resume_revisions) (h tenant run)
        (chains tenant run))
