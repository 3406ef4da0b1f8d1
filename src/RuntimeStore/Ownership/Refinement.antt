-- ===== src/RuntimeStore/Ownership/Refinement.antt =====
-- The moves of the machine of ownership that the calls of the store make, for every Run.
use tsagent.RuntimeStore.EventReads.{retention_floor_tx}
use tsagent.Prelude.{ℕ, String, true, Option, List, [], ◌∷◌, ap, arith}
use tsagent.Prelude.Int.{ℤ}
use tsagent.Prelude.Result.{Result}
use tsagent.Prelude.Ensures.{Ensures, Ensures-weaken}
use tsagent.RuntimeStore.Errors.{StoreErrorCode}
use tsagent.RuntimeStore.Tables.{Database, SqliteRuntimeStore, Host}
use tsagent.RuntimeStore.Leases.{owner_renewal_tx}
use tsagent.RuntimeStore.Events.{EventDraft, append_event_tx}
use tsagent.RuntimeStore.Calls.{Call, perform, run_calls}
use tsagent.RuntimeStore.Calls.Steps.{Steps, perform-step}
use tsagent.RuntimeStore.Ownership.Machine.{Moves-first}
use tsagent.RuntimeStore.Ownership.{Ownership, Move, handle, stay, ownership, Moves, none_yet}
use tsagent.RuntimeStore.Ownership.Statements.{KeepsHeads, append_event_tx-KeepsHeads}
use tsagent.RuntimeStore.Ownership.Granting.{
  Handled, Handling-stay, renewal-Handled, initialize_run_tx-Handled, acquire_fence_tx-Handled,
}
use tsagent.RuntimeStore.Ownership.Writing.{
  takeover_fence_tx-Handled, release_fence_tx-Handled, Moved, append_revision_tx-Moved,
  transition_tx-Handled,
}

-- The ownership of a Run that a store records
abbrev pub owner : SqliteRuntimeStore → String → String → Option Ownership
owner s tenant run = ownership tenant run s.database.run_heads

pub owner_renewal_tx-Handled :
    (tenant run : String) (host : Host) (generation t x r w : String) (n : ℤ) (db : Database)
    → Ensures (Handled tenant run db) (owner_renewal_tx host generation t x r w n db)
unfolding owner_renewal_tx
owner_renewal_tx-Handled tenant run host generation t x r w n db =
    ground (arith, renewal-Handled tenant run host t x r w n true tt db)

pub append_event_tx-Handled :
    (tenant run : String) (host : Host) (generation : String) (d : EventDraft) (db : Database)
    → Ensures (Handled tenant run db) (append_event_tx host generation d db)
append_event_tx-Handled tenant run host generation d db =
    Ensures-weaken (KeepsHeads db) (Handled tenant run db) (append_event_tx host generation d db)
      (append_event_tx-KeepsHeads host generation d db)
      (λ x k. Handling-stay (ap (ownership tenant run) k))

pub retention_floor_tx-Handled :
    (tenant run : String) (host : Host) (g t x r : String) (n : ℕ) (db : Database)
    → Ensures (Handled tenant run db) (retention_floor_tx host g t x r n db)
unfolding retention_floor_tx
retention_floor_tx-Handled tenant run host g t x r n db =
    ground (arith, stay (ownership tenant run db.run_heads))

lift :
    {A : Type 0} (tenant run : String) (db : Database) (m : Result StoreErrorCode (Database × A))
    → Ensures (Handled tenant run db) m
    → Ensures (Moved tenant run db) m
lift tenant run db m h =
    Ensures-weaken (Handled tenant run db) (Moved tenant run db) m h (λ x k. handle k)

transactions :
    (tenant run : String)
    → Steps
        (λ db db'. Move (ownership tenant run db.run_heads) (ownership tenant run db'.run_heads))
transactions tenant run = record {
  retain = λ host g t x r n db.
      lift tenant run db _ (retention_floor_tx-Handled tenant run host g t x r n db);
  skip = λ db. handle (stay (ownership tenant run db.run_heads));
  initialize = λ host g t x r q u db.
      lift tenant run db _ (initialize_run_tx-Handled tenant run host g t x r q u db);
  acquire = λ host g t x r w n q l db e.
      lift tenant run db _ (acquire_fence_tx-Handled tenant run host g t x r w n q l db e);
  take_over = λ host g t x r w n q l db e.
      lift tenant run db _ (takeover_fence_tx-Handled tenant run host g t x r w n q l db e);
  renew = λ host g t x r w n db.
      lift tenant run db _ (owner_renewal_tx-Handled tenant run host g t x r w n db);
  hand_back = λ host g t x r w n q db.
      lift tenant run db _ (release_fence_tx-Handled tenant run host g t x r w n q db);
  write_revision = λ host g c j db e. append_revision_tx-Moved tenant run host g c j db e;
  write_event =
      λ host g d db. lift tenant run db _ (append_event_tx-Handled tenant run host g d db);
  transition =
      λ host g c j db. lift tenant run db _ (transition_tx-Handled tenant run host g c j db);
}

-- The store refines the machine of ownership, call by call: whatever the store and the call of Calls,
-- and whether it returns or raises, every Run makes one move of the machine. The Run stays as it is, is
-- created without an owner, is granted to a writer under the next token, is released under its token, or
-- advances by one revision while a writer owns it.
pub perform-Move :
    (host : Host) (s : SqliteRuntimeStore) (c : Call) (tenant run : String)
    → Move (owner s tenant run) (owner (perform host s c) tenant run)
perform-Move host s c tenant run =
    perform-step
      (λ db db'. Move (ownership tenant run db.run_heads) (ownership tenant run db'.run_heads))
      (transactions tenant run) host s c

-- A sequence of calls takes every Run through a sequence of moves.
pub run_calls-Moves :
    (s : SqliteRuntimeStore) (calls : List (Host × Call)) (tenant run : String)
    → Moves (owner s tenant run) (owner (run_calls s calls) tenant run)
unfolding run_calls
run_calls-Moves s [] tenant run = none_yet
run_calls-Moves s ((host, c) ∷ calls) tenant run =
    Moves-first (perform-Move host s c tenant run)
      (run_calls-Moves (perform host s c) calls tenant run)
