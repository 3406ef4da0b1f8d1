-- ===== src/RuntimeStore/Ownership.antt =====
-- What the durable store promises of the ownership of a Run: a small machine that the transactions
-- of agent/runtime_store/sqlite.py refine, as far as Calls has them: a request to interrupt a Run moves
-- its head without the fence, and is none of them. A Run has one writer at most, under a token that only
-- grows, and its head moves on behind that writer alone.
pub mod Machine
pub mod Statements
pub mod Granting
pub mod Writing
pub mod Refinement
pub mod Safety
use tsagent.Prelude.{
  ℕ, suc, ◌<◌, ◌≤◌, String, ◌≡◌, ◌≢◌, ◌⊎◌, inl, inr, Bool, true, false, Option, none, some, refl,
  arith, List,
}
use tsagent.Prelude.Text.{is_empty}
use tsagent.RuntimeStore.Sql.{fetch_one}
use tsagent.RuntimeStore.Sql.Laws.{map_option}
use tsagent.RuntimeStore.Tables.{Database, RunHead, head_of}

pub record Ownership : Type 0 where
  pub token : ℕ
  pub writer : String
  pub revision : ℕ
  pub digest : String

-- How the custody of a Run changes hands; nothing is recorded of a Run that does not exist.
pub data Handling : Option Ownership → Option Ownership → Type 0 where
  stay : (v : Option Ownership) → Handling v v
  create : Handling none (some (record { token = 0; writer = ""; revision = 0; digest = "" }))
  grant :
      (o : Ownership) (w : String)
      → is_empty w ≡ false
      → Handling (some o) (some (record o { token = suc o.token; writer = w }))
  release : (o : Ownership) → Handling (some o) (some (record o { writer = "" }))

-- The moves of the machine: the custody changes hands, or its owner writes.
pub data Move : Option Ownership → Option Ownership → Type 0 where
  handle : {u v : Option Ownership} → Handling u v → Move u v
  advance :
      (o : Ownership) (d : String)
      → is_empty o.writer ≡ false
      → Move (some o) (some (record o { revision = suc o.revision; digest = d }))

-- Any number of moves
pub data Moves (u : Option Ownership) : Option Ownership → Type 0 where
  none_yet : Moves u u
  then_one : {v w : Option Ownership} → Moves u v → Move v w → Moves u w

-- The ownership that a head records, and that of a Run in a database
abbrev pub owner_of : RunHead → Ownership
owner_of h = record {
  token = h.current_fence_token;
  writer = h.current_writer_id;
  revision = h.current_revision;
  digest = h.current_digest;
}

abbrev pub ownership : String → String → List RunHead → Option Ownership
ownership tenant run heads = map_option owner_of (fetch_one (head_of tenant run) heads)

-- The fence of a writer and token is gone: the token has been granted, and the writer does not hold
-- the Run under it.
abbrev pub Lost : String → ℕ → Option Ownership → Type 0
Lost w k none = ⊥
Lost w k (some o) = (k < o.token) ⊎ ((k ≡ o.token) × (o.writer ≢ w))

-- Progress never shrinks.
abbrev pub Grows : Option Ownership → Option Ownership → Type 0
Grows none v = Unit
Grows (some o) none = ⊥
Grows (some o) (some p) = (o.token ≤ p.token) × (o.revision ≤ p.revision)
