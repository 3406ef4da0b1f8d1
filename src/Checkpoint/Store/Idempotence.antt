-- ===== src/Checkpoint/Store/Idempotence.antt =====
-- Saving again, reading what was saved, and the staging buffer's copy of `save`.
use tsagent.Prelude.{
  String, ◌≡◌, refl, sym, ◌∙◌, ap, Option, none, some, arith, eq_refl, inl, inr, Option-cases,
}
use tsagent.Prelude.Lists.{last-append}
use tsagent.Prelude.Result.{Result, ok, err, ok-injective}
use tsagent.Checkpoint.Contracts.{RunCheckpoint}
use tsagent.Checkpoint.Store.{
  InMemoryCheckpointStore, StoreError, insert, save, newest, append_new, refusal, latest, stage,
  staged_refusal,
}

insert-found :
    (s : InMemoryCheckpointStore) (c : RunCheckpoint)
    → (insert s c).checkpoints c.checkpoint_id ≡ some c
unfolding insert
insert-found s c = rw (eq_refl c.checkpoint_id) refl

insert-latest :
    (s : InMemoryCheckpointStore) (c : RunCheckpoint) → latest (insert s c) c.run_id ≡ ok (some c)
unfolding latest insert
insert-latest s c =
    rw
      (
        eq_refl c.run_id,
        last-append (s.run_history c.run_id) c.checkpoint_id,
        newest,
        eq_refl c.checkpoint_id,
      )
      refl

module _ (digest : RunCheckpoint → String) (s : InMemoryCheckpointStore) (c : RunCheckpoint) where
  append_inverted :
      (r : Result StoreError (Option RunCheckpoint)) {d : RunCheckpoint}
      → (append_new s c r).1 ≡ ok d
      → append_new s c r ≡ (insert s c, ok c)
  append_inverted (err e) h = cc
  append_inverted (ok prev) h = elim (Option-cases (refusal prev c)) [
    | inl k ↦ rw (append_new, k) refl
    | inr (e, k) ↦ cc (rw (append_new, k) at h)
  ]

  -- A checkpoint under a new identity, when `save` returns, was inserted and is what was returned.
  saved_new :
      {d : RunCheckpoint}
      → s.checkpoints c.checkpoint_id ≡ none
      → (save digest s c).1 ≡ ok d
      → save digest s c ≡ (insert s c, ok c)
  unfolding save
  saved_new fresh h = rw (save, fresh) (append_inverted _ (rw (save, fresh) at h))

  after_insert : save digest (insert s c) c ≡ (insert s c, ok c)
  unfolding save
  after_insert = rw (save, insert-found s c, eq_refl (digest c)) refl

  after_stored :
      (e : RunCheckpoint)
      → s.checkpoints c.checkpoint_id ≡ some e
      → save digest s c ≡ (s, (save digest s c).1)
  unfolding save
  after_stored e k = rw (save, k) refl

  same_returned :
      {d : RunCheckpoint}
      → save digest s c ≡ (insert s c, ok c)
      → (save digest s c).1 ≡ ok d
      → c ≡ d
  same_returned q h = ok-injective (sym (ap (λ r. r.1) q) ∙ h)

  -- A `save` that returned can be made again: it returns the same checkpoint and leaves the store as
  -- it is.
  pub save_again :
      (d : RunCheckpoint)
      → (save digest s c).1 ≡ ok d
      → save digest (save digest s c).0 c ≡ ((save digest s c).0, ok d)
  save_again d h = elim (Option-cases (s.checkpoints c.checkpoint_id)) [
    | inl k ↦ let q = saved_new k h in rw (q, ← same_returned q h) after_insert
    | inr (e, k) ↦
        let q : save digest s c ≡ (s, ok d) = after_stored e k ∙ ap (λ r. (s, r)) h in rw q q
  ]

  -- A checkpoint that `save` accepted under a new identity is the latest of its Run.
  pub save-latest :
      (d : RunCheckpoint)
      → s.checkpoints c.checkpoint_id ≡ none
      → (save digest s c).1 ≡ ok d
      → latest (save digest s c).0 c.run_id ≡ ok (some c)
  save-latest d fresh h = rw (saved_new fresh h) (insert-latest s c)

module _ (digest : RunCheckpoint → String) (s : InMemoryCheckpointStore) (c : RunCheckpoint) where
  -- The staging buffer's `save`, whose tests stand in another order, does what the store's does, in
  -- every state and with the same exceptions.
  pub stage-save : stage digest s c ≡ save digest s c
  unfolding stage save staged_refusal refusal
  stage-save = ground arith
