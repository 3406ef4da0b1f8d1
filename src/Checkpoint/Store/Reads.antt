-- ===== src/Checkpoint/Store/Reads.antt =====
-- What the reads of a store return that began empty and was only saved to.
use tsagent.Prelude.{
  String, ◌≡◌, refl, ap, suc, true, Option, none, some, List, [], ◌∷◌, ◌++◌, inl, inr, is_some,
  Option-cases,
}
use tsagent.Prelude.Int.{pos, increment}
use tsagent.Prelude.Lists.{length, All}
use tsagent.Prelude.Result.{ok}
use tsagent.Checkpoint.Contracts.{RunCheckpoint}
use tsagent.Checkpoint.Store.{
  InMemoryCheckpointStore, save, empty_store, latest_for_workflow, history, fetch_all, fetch,
  first_of_attempt, reversed,
}
use tsagent.Checkpoint.Store.Chain.{Chain, start, grow}
use tsagent.Checkpoint.Store.Consistency.{IsConsistent, empty_store-IsConsistent, save-IsConsistent}

-- The stores that a sequence of `save` calls leads to, refused ones included.
pub data Reached (digest : RunCheckpoint → String) : InMemoryCheckpointStore → Type 0 where
  fresh : Reached digest empty_store
  saved :
      {s : InMemoryCheckpointStore} (c : RunCheckpoint)
      → Reached digest s
      → Reached digest (save digest s c).0

pub Reached-IsConsistent :
    {digest : RunCheckpoint → String} {s : InMemoryCheckpointStore}
    → Reached digest s
    → IsConsistent s
Reached-IsConsistent fresh = empty_store-IsConsistent
Reached-IsConsistent {digest} (saved {s = s} c r) =
    save-IsConsistent digest s c (Reached-IsConsistent r)

length-snoc {ℓ} : {A : Type ℓ} (xs : List A) (x : A) → length (xs ++ x ∷ []) ≡ suc (length xs)
length-snoc [] x = refl
length-snoc (y ∷ ys) x = ap suc (length-snoc ys x)

abbrev Counted : List String → Option RunCheckpoint → Type 0
Counted ids none = ids ≡ []
Counted ids (some c) = increment c.sequence_number ≡ pos (length ids)

module _ {f : String → Option RunCheckpoint} {run workflow : String} where
  Chain-Counted :
      {ids : List String} {o : Option RunCheckpoint} → Chain f run workflow ids o → Counted ids o
  Chain-Counted start = refl
  Chain-Counted (grow {ids = ids} {prev = none} c l e r w n) = rw (n.0, Chain-Counted l) refl
  Chain-Counted (grow {ids = ids} {prev = some b} c l e r w n) =
      rw (n.0, Chain-Counted l, length-snoc ids c.checkpoint_id) refl

  Chain-owner :
      {ids : List String} {c : RunCheckpoint}
      → Chain f run workflow ids (some c)
      → (c.run_id ≡ run) × (c.workflow_id ≡ workflow)
  Chain-owner (grow c l e r w n) = (r, w)

reversed-snoc : (xs : List String) (x : String) → reversed (xs ++ x ∷ []) ≡ x ∷ reversed xs
unfolding reversed
reversed-snoc [] x = refl
reversed-snoc (y ∷ ys) x = rw (reversed-snoc ys x) refl

read_through :
    (s : InMemoryCheckpointStore) {run workflow : String} {ids : List String}
    {o : Option RunCheckpoint}
    → Chain s.checkpoints run workflow ids o
    → first_of_attempt s "" (reversed ids) ≡ ok o
unfolding first_of_attempt reversed
read_through s start = refl
read_through s (grow {ids = ids} c l e r w n) =
    rw (reversed-snoc ids c.checkpoint_id, first_of_attempt, e) refl

fetched :
    (s : InMemoryCheckpointStore) (ids : List String)
    → All (λ id. is_some (s.checkpoints id) ≡ true) ids
    → (cs : List RunCheckpoint) × (fetch_all s ids ≡ ok cs) × (length cs ≡ length ids)
unfolding fetch_all
fetched s [] h = ([], refl, refl)
fetched s (id ∷ ids) (h, hs) = elim (Option-cases (s.checkpoints id)) [
  | inl e ↦ cc (rw e at h)
  | inr (c, e) ↦
      let (cs, k, n) = fetched s ids hs in (c ∷ cs, rw (fetch_all, fetch, e, k) refl, ap suc n)
]

module _ {digest : RunCheckpoint → String} {s : InMemoryCheckpointStore} where
  -- The latest checkpoint of a workflow belongs to the Run and workflow that were asked for, and its
  -- sequence number is one less than the number of checkpoints that the workflow has: the numbers of
  -- a chain have no gap.
  pub latest_for_workflow_counts :
      (r : Reached digest s) (run workflow : String) (c : RunCheckpoint)
      → latest_for_workflow s run workflow "" ≡ ok (some c)
      → (c.run_id ≡ run)
        × (c.workflow_id ≡ workflow)
        × (increment c.sequence_number ≡ pos (length (s.workflow_history run workflow)))
  unfolding latest_for_workflow
  latest_for_workflow_counts r run workflow c h =
      let (o, chain) = (Reached-IsConsistent r).chains run workflow in
      let e : o ≡ some c = cc (read_through s chain, h) in of_chain (rw e at chain)
    where
      of_chain :
          Chain s.checkpoints run workflow (s.workflow_history run workflow) (some c)
          → (c.run_id ≡ run)
            × (c.workflow_id ≡ workflow)
            × (increment c.sequence_number ≡ pos (length (s.workflow_history run workflow)))
      of_chain chain = ((Chain-owner chain).0, (Chain-owner chain).1, Chain-Counted chain)

  -- The history of a Run is always read without a `KeyError`, one checkpoint for each identity.
  pub history_total :
      (r : Reached digest s) (run : String)
      → (cs : List RunCheckpoint) × (history s run ≡ ok cs)
        × (length cs ≡ length (s.run_history run))
  unfolding history
  history_total r run = fetched s (s.run_history run) ((Reached-IsConsistent r).known run)
