-- ===== src/Checkpoint/Store/Consistency.antt =====
-- What `save` keeps: every history is a chain of stored checkpoints.
use tsagent.Prelude.{
  String, ◌≡◌, ◌≢◌, refl, ap, true, ◌&&◌, Option, none, some, List, [], ◌∷◌, ◌==◌, arith, eq_iff,
  eq_refl, inl, inr, is_some, if◌then◌else◌, Bool-cases, Option-cases,
}
use tsagent.Prelude.Lists.{last, All, All-append}
use tsagent.Prelude.Result.{Result, ok, err}
use tsagent.Checkpoint.Contracts.{RunCheckpoint}
use tsagent.Checkpoint.Store.{
  InMemoryCheckpointStore, StoreError, missing_key, identity_collision, insert, save, newest,
  append_new, refusal, empty_store,
}
use tsagent.Checkpoint.Store.Chain.{
  Chain, start, grow, Follows, refusal-Follows, Chain-extend, Chain-last,
}

-- Each workflow's history is a chain, and each identity of a Run's history is stored.
pub record IsConsistent (s : InMemoryCheckpointStore) : Type 0 where
  pub chains :
      (run workflow : String)
      → (o : Option RunCheckpoint) × Chain s.checkpoints run workflow
          (s.workflow_history run workflow)
          o
  pub known : (run : String) → All (λ id. is_some (s.checkpoints id) ≡ true) (s.run_history run)

pub empty_store-IsConsistent : IsConsistent empty_store
empty_store-IsConsistent = record { chains = λ run workflow. (none, start); known = λ run. tt }

insert-keeps :
    (s : InMemoryCheckpointStore) (c : RunCheckpoint)
    → s.checkpoints c.checkpoint_id ≡ none
    → (id : String) (d : RunCheckpoint) → s.checkpoints id ≡ some d
    → (insert s c).checkpoints id ≡ some d
unfolding insert
insert-keeps s c fresh id d h = elim (Bool-cases (c.checkpoint_id == id)) [
  | inl e ↦ cc (fresh, h, ap s.checkpoints ((eq_iff c.checkpoint_id id).0 e))
  | inr e ↦ rw e h
]

insert-some :
    (s : InMemoryCheckpointStore) (c : RunCheckpoint) (id : String)
    → is_some (s.checkpoints id) ≡ true
    → is_some ((insert s c).checkpoints id) ≡ true
unfolding insert
insert-some s c id h = ground arith

insert-All :
    (s : InMemoryCheckpointStore) (c : RunCheckpoint) (ids : List String)
    → All (λ id. is_some (s.checkpoints id) ≡ true) ids
    → All (λ id. is_some ((insert s c).checkpoints id) ≡ true) ids
insert-All s c [] h = tt
insert-All s c (id ∷ ids) (h, hs) = (insert-some s c id h, insert-All s c ids hs)

insert-known :
    (s : InMemoryCheckpointStore) (c : RunCheckpoint) (run : String)
    → All (λ id. is_some (s.checkpoints id) ≡ true) (s.run_history run)
    → All (λ id. is_some ((insert s c).checkpoints id) ≡ true) ((insert s c).run_history run)
unfolding insert
insert-known s c run h = elim (Bool-cases (c.run_id == run)) [
  | inl e ↦ rw e (
      All-append _ (s.run_history run) (c.checkpoint_id ∷ []) (insert-All s c (s.run_history run) h)
        (rw (eq_refl c.checkpoint_id) refl, tt))
  | inr e ↦ rw e (insert-All s c (s.run_history run) h)
]

insert-chains :
    (s : InMemoryCheckpointStore) (c : RunCheckpoint) (prev : Option RunCheckpoint)
    → s.checkpoints c.checkpoint_id ≡ none
    → Chain s.checkpoints c.run_id c.workflow_id (s.workflow_history c.run_id c.workflow_id) prev
    → Follows prev c
    → (run workflow : String) (o : Option RunCheckpoint)
    → Chain s.checkpoints run workflow (s.workflow_history run workflow) o
    → (o' : Option RunCheckpoint) × Chain
        (insert s c).checkpoints
        run
        workflow
        ((insert s c).workflow_history run workflow)
        o'
unfolding insert
insert-chains s c prev fresh behind follows run workflow o chain =
    elim (Bool-cases (c.run_id == run && c.workflow_id == workflow)) [
      | inl e ↦
          let r : c.run_id ≡ run = ground (arith, eq_iff c.run_id run) in
          let w : c.workflow_id ≡ workflow = ground (arith, eq_iff c.workflow_id workflow) in
          rw (← r, ← w, eq_refl c.run_id, eq_refl c.workflow_id)
            (
              some c,
              grow c (Chain-extend (insert s c).checkpoints (insert-keeps s c fresh) behind)
                  (rw (eq_refl c.checkpoint_id) refl) refl refl follows,
            )
      | inr e ↦ rw e (o, Chain-extend (insert s c).checkpoints (insert-keeps s c fresh) chain)
    ]

-- In a consistent store the last identity of a history is found.
pub newest_found :
    (s : InMemoryCheckpointStore) {run workflow : String} {ids : List String}
    {o : Option RunCheckpoint}
    → Chain s.checkpoints run workflow ids o
    → newest s (last ids) ≡ ok o
unfolding last
newest_found s chain = elim (Chain-last chain) [
  | inl (e, n) ↦ rw (e, n) refl
  | inr (c, n, l, f) ↦ rw (n, l, newest, f) refl
]

append_new-IsConsistent :
    (s : InMemoryCheckpointStore) (c : RunCheckpoint) (prev : Option RunCheckpoint)
    → IsConsistent s
    → s.checkpoints c.checkpoint_id ≡ none
    → Chain s.checkpoints c.run_id c.workflow_id (s.workflow_history c.run_id c.workflow_id) prev
    → IsConsistent (append_new s c (ok prev)).0
append_new-IsConsistent s c prev i fresh chain = elim (Option-cases (refusal prev c)) [
  | inr (e, h) ↦ rw (append_new, h) i
  | inl h ↦
      rw (append_new, h)
        (record {
          chains = λ run workflow.
              insert-chains s c prev fresh chain (refusal-Follows prev c h) run workflow
                (i.chains run workflow).0 (i.chains run workflow).1;
          known = λ run. insert-known s c run (i.known run);
        })
]

module _ (digest : RunCheckpoint → String) (s : InMemoryCheckpointStore) (c : RunCheckpoint) where
  -- Every outcome of `save`, errors included, leaves a consistent store consistent.
  pub save-IsConsistent : IsConsistent s → IsConsistent (save digest s c).0
  unfolding save
  save-IsConsistent i = elim (Option-cases (s.checkpoints c.checkpoint_id)) [
    | inr (e, h) ↦ rw (save, h) i
    | inl h ↦
        let (prev, chain) = i.chains c.run_id c.workflow_id in
        rw (save, h, newest_found s chain) (append_new-IsConsistent s c prev i h chain)
  ]

  refusal_named : (prev : Option RunCheckpoint) → (append_new s c (ok prev)).1 ≢ err missing_key
  unfolding refusal
  refusal_named none = ground arith
  refusal_named (some b) = ground arith

  stored_named :
      (e : RunCheckpoint)
      → ◌≢◌ {A = Result StoreError RunCheckpoint}
          (if digest e == digest c then ok e else err identity_collision)
          (err missing_key)
  stored_named e = ground arith

  -- In a consistent store `save` never meets an identity that is not stored: it returns, or raises
  -- one of its own exceptions.
  pub save-missing_key : IsConsistent s → (save digest s c).1 ≢ err missing_key
  unfolding save
  save-missing_key i = elim (Option-cases (s.checkpoints c.checkpoint_id)) [
    | inr (e, h) ↦ rw (save, h) (stored_named e)
    | inl h ↦
        let (prev, chain) = i.chains c.run_id c.workflow_id in
        rw (save, h, newest_found s chain) (refusal_named prev)
  ]

  append_new-keeps :
      (r : Result StoreError (Option RunCheckpoint)) (id : String) (d : RunCheckpoint)
      → s.checkpoints c.checkpoint_id ≡ none
      → s.checkpoints id ≡ some d
      → (append_new s c r).0.checkpoints id ≡ some d
  append_new-keeps (err e) id d fresh h = h
  append_new-keeps (ok prev) id d fresh h = elim (Option-cases (refusal prev c)) [
    | inl k ↦ rw (append_new, k) (insert-keeps s c fresh id d h)
    | inr (e, k) ↦ rw (append_new, k) h
  ]

  -- The store is append-only: a stored checkpoint is never changed or removed by a `save`.
  pub save-keeps :
      (id : String) (d : RunCheckpoint)
      → s.checkpoints id ≡ some d
      → (save digest s c).0.checkpoints id ≡ some d
  unfolding save
  save-keeps id d h = elim (Option-cases (s.checkpoints c.checkpoint_id)) [
    | inr (e, k) ↦ rw (save, k) h
    | inl k ↦ rw (save, k) (append_new-keeps _ id d k h)
  ]
