-- ===== src/Checkpoint/Json/Snapshots.antt =====
-- Snapshots of a plan: their shape, the sets and keys in them, and the place that a key is put at.
use Prim.Native.Nat.{Ordering}
use Prim.Native.String.{compare}
use tsagent.Prelude.{
  if◌then◌else◌, eq_iff, eq_refl, Option, none, some, String, ◌≡◌, ◌≢◌, ◌⊎◌, inl, inr, refl, arith,
  Bool, true, false, ◌||◌, ◌==◌,
}
use tsagent.Prelude.Order.{compare_flip}
use tsagent.Checkpoint.Json.{
  Json, Items, Fields, null, boolean, integer, float, text, array, object, set, frozen_set, nil,
  cons, end, field, insert_field,
}

-- The first key is not above the next one.
abbrev HeadFits : String → Fields → Type 0
HeadFits k end = Unit
HeadFits k (field j _ _) = compare k j ≢ Ordering.gt

-- A snapshot: at every depth the keys of a mapping are in order and a set is a frozen one.
unfoldable mutual
  pub Frozen : Json → Type 0
  Frozen null = Unit
  Frozen (boolean b) = Unit
  Frozen (integer n) = Unit
  Frozen (float t) = Unit
  Frozen (text t) = Unit
  Frozen (array xs) = FrozenItems xs
  Frozen (object fs) = FrozenFields fs
  Frozen (set xs) = ⊥
  Frozen (frozen_set xs) = FrozenItems xs

  pub FrozenItems : Items → Type 0
  FrozenItems nil = Unit
  FrozenItems (cons x xs) = Frozen x × FrozenItems xs

  pub FrozenFields : Fields → Type 0
  FrozenFields end = Unit
  FrozenFields (field k v fs) = HeadFits k fs × Frozen v × FrozenFields fs

-- whether a set or a frozen one stands in the value, at any depth
unfoldable mutual
  pub holds_set : Json → Bool
  holds_set null = false
  holds_set (boolean b) = false
  holds_set (integer n) = false
  holds_set (float t) = false
  holds_set (text t) = false
  holds_set (array xs) = items_hold_set xs
  holds_set (object fs) = fields_hold_set fs
  holds_set (set xs) = true
  holds_set (frozen_set xs) = true

  pub items_hold_set : Items → Bool
  items_hold_set nil = false
  items_hold_set (cons x xs) = holds_set x || items_hold_set xs

  pub fields_hold_set : Fields → Bool
  fields_hold_set end = false
  fields_hold_set (field k v fs) = holds_set v || fields_hold_set fs

Ordering-cases : (o : Ordering) → (o ≡ Ordering.gt) ⊎ (o ≢ Ordering.gt)
Ordering-cases Ordering.gt = inl refl
Ordering-cases Ordering.lt = inr (λ e. cc)
Ordering-cases Ordering.eq = inr (λ e. cc)

pub insert_field_fits :
    (k : String) (v : Json) (fs : Fields) → HeadFits k fs → insert_field k v fs ≡ field k v fs
unfolding insert_field
insert_field_fits k v end h = refl
insert_field_fits k v (field j w fs) h = ground arith

insert_field_above :
    (k j : String) (v w : Json) (fs : Fields)
    → compare k j ≡ Ordering.gt
    → insert_field k v (field j w fs) ≡ field j w (insert_field k v fs)
unfolding insert_field
insert_field_above k j v w fs h = rw (h, insert_field)

insert_field-HeadFits :
    (k j : String) (v : Json) (fs : Fields)
    → compare k j ≡ Ordering.gt
    → HeadFits j fs
    → HeadFits j (insert_field k v fs)
insert_field-HeadFits k j v end g h = unfold insert_field in compare_flip k j g
insert_field-HeadFits k j v (field i w fs) g h = elim (Ordering-cases (compare k i)) [
  | inl above ↦ rw (insert_field_above k i v w fs above) h
  | inr fits ↦ rw (insert_field_fits k v (field i w fs) fits) (compare_flip k j g)
]

pub insert_field-FrozenFields :
    (k : String) (v : Json) (fs : Fields)
    → Frozen v
    → FrozenFields fs
    → FrozenFields (insert_field k v fs)
unfolding FrozenFields
insert_field-FrozenFields k v end e h = unfold insert_field in (tt, e, tt)
insert_field-FrozenFields k v (field j w fs) e h = elim (Ordering-cases (compare k j)) [
  | inl above ↦
      rw (insert_field_above k j v w fs above)
        (insert_field-HeadFits k j v fs above h.0, h.1, insert_field-FrozenFields k v fs e h.2)
  | inr fits ↦ rw (insert_field_fits k v (field j w fs) fits) (fits, e, h)
]

pub insert_field-holds_set :
    (k : String) (v : Json) (fs : Fields)
    → fields_hold_set (insert_field k v fs) ≡ (holds_set v || fields_hold_set fs)
unfolding fields_hold_set insert_field
insert_field-holds_set k v end = refl
insert_field-holds_set k v (field j w fs) = ground (arith, insert_field-holds_set k v fs)

-- the value at the first field of a key
unfoldable pub lookup : String → Fields → Option Json
lookup key end = none
lookup key (field k v fs) = if key == k then some v else lookup key fs

not_above_itself :
    (key k j : String) → (key == k) ≡ true → (key == j) ≡ true → compare k j ≢ Ordering.gt
not_above_itself key k j e f g = ground (arith, eq_iff key k, eq_iff key j, eq_refl j)

pub lookup-insert_field :
    (key k : String) (v : Json) (fs : Fields)
    → lookup key (insert_field k v fs) ≡ (if key == k then some v else lookup key fs)
unfolding lookup
lookup-insert_field key k v end = unfold insert_field in refl
lookup-insert_field key k v (field j w fs) = elim (Ordering-cases (compare k j)) [
  | inl above ↦
      rw (insert_field_above k j v w fs above)
        (ground (arith, lookup-insert_field key k v fs, not_above_itself key k j))
  | inr fits ↦ rw (insert_field_fits k v (field j w fs) fits) refl
]
