-- ===== src/Checkpoint/Json.antt =====
-- JSON-like values of an execution plan, and `_freeze` of agent/checkpoint/contracts.py.
pub mod Snapshots
pub mod Freeze
use Prim.Native.Nat.{Ordering}
use Prim.Native.String.{compare}
use tsagent.Prelude.{String, Bool, Option, none, some}
use tsagent.Prelude.Int.{ℤ}

-- A set is the sequence of its elements, in the order in which it is read. A float is kept by the text of its digits: no code here computes with one.
mutual
  pub data Json : Type 0 where
    null : Json
    boolean : Bool → Json
    integer : ℤ → Json
    float : String → Json
    text : String → Json
    array : Items → Json
    object : Fields → Json
    set frozen_set : Items → Json

  pub data Items : Type 0 where
    nil : Items
    cons : Json → Items → Items

  pub data Fields : Type 0 where
    end : Fields
    field : String → Json → Fields → Fields

-- The place of a key in a mapping sorted by its keys, behind equal ones: the sort is stable when
-- the last field is put in first.
unfoldable pub insert_field : String → Json → Fields → Fields
insert_field k v end = field k v end
insert_field k v (field j w fs) =
    let rest = insert_field k v fs in
    elim (compare k j) [ Ordering.gt ↦ field j w rest | _ ↦ field k v (field j w fs) ]

-- `none` is the TypeError that a value which is not JSON-like raises, a frozen set among them.
unfoldable mutual
  unfolding insert_field

  pub freeze : Json → Option Json
  freeze null = some null
  freeze (boolean b) = some (boolean b)
  freeze (integer n) = some (integer n)
  freeze (float t) = some (float t)
  freeze (text t) = some (text t)
  freeze (array xs) = elim (freeze_items xs) [ none ↦ none | some ys ↦ some (array ys) ]
  freeze (object fs) = elim (freeze_fields fs) [ none ↦ none | some gs ↦ some (object gs) ]
  freeze (set xs) = elim (freeze_items xs) [ none ↦ none | some ys ↦ some (frozen_set ys) ]
  freeze (frozen_set xs) = none

  pub freeze_items : Items → Option Items
  freeze_items nil = some nil
  freeze_items (cons x xs) = elim (freeze x) [
    | none ↦ none
    | some y ↦ elim (freeze_items xs) [ none ↦ none | some ys ↦ some (cons y ys) ]
  ]

  pub freeze_fields : Fields → Option Fields
  freeze_fields end = some end
  freeze_fields (field k v fs) = elim (freeze v) [
    | none ↦ none
    | some w ↦ elim (freeze_fields fs) [ none ↦ none | some gs ↦ some (insert_field k w gs) ]
  ]
