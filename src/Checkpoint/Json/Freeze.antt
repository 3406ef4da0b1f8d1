-- ===== src/Checkpoint/Json/Freeze.antt =====
-- What freezing makes of a plan, and when a frozen plan can be frozen again.
use mathlib.Core.Path.{subst}
use tsagent.Prelude.{String, ◌≡◌, refl, arith, true, false, ◌||◌, Option, none, some, if◌then◌else◌}
use tsagent.Checkpoint.Json.{
  Json, Items, Fields, null, boolean, integer, float, text, array, object, set, frozen_set, nil,
  cons, end, field, insert_field, freeze, freeze_items, freeze_fields,
}
use tsagent.Checkpoint.Json.Snapshots.{
  Frozen, FrozenItems, FrozenFields, holds_set, items_hold_set, fields_hold_set, lookup,
  insert_field_fits, insert_field-FrozenFields, insert_field-holds_set, lookup-insert_field,
}

-- what holds of a value that was returned
abbrev OfSome : {A : Type 0} → (A → Type 0) → Option A → Type 0
OfSome P none = Unit
OfSome P (some a) = P a

OfSome-one :
    {A B : Type 0} (P : A → Type 0) (Q : B → Type 0) (f : A → B) (m : Option A)
    → OfSome P m
    → ((a : A) → P a → Q (f a))
    → OfSome Q (elim m [ none ↦ none | some a ↦ some (f a) ])
OfSome-one P Q f none h k = tt
OfSome-one P Q f (some a) h k = k a h

OfSome-two :
    {A B C : Type 0} (P : A → Type 0) (Q : B → Type 0) (R : C → Type 0) (f : A → B → C)
    (m : Option A) (n : Option B)
    → OfSome P m
    → OfSome Q n
    → ((a : A) (b : B) → P a → Q b → R (f a b))
    → OfSome R (elim m [ none ↦ none | some a ↦ elim n [ none ↦ none | some b ↦ some (f a b) ] ])
OfSome-two P Q R f none n h g k = tt
OfSome-two P Q R f (some a) none h g k = tt
OfSome-two P Q R f (some a) (some b) h g k = k a b h g

OfSome-value : {A : Type 0} (P : A → Type 0) (m : Option A) {a : A} → m ≡ some a → OfSome P m → P a
OfSome-value P m e h = subst (OfSome P) e h

mutual
  unfolding Frozen FrozenItems FrozenFields freeze freeze_items freeze_fields

  freeze-Frozen : (j : Json) → OfSome Frozen (freeze j)
  freeze-Frozen null = tt
  freeze-Frozen (boolean b) = tt
  freeze-Frozen (integer n) = tt
  freeze-Frozen (float t) = tt
  freeze-Frozen (text t) = tt
  freeze-Frozen (array xs) =
      OfSome-one FrozenItems Frozen array (freeze_items xs) (items-Frozen xs) (λ r h. h)
  freeze-Frozen (object fs) =
      OfSome-one FrozenFields Frozen object (freeze_fields fs) (fields-Frozen fs) (λ r h. h)
  freeze-Frozen (set xs) =
      OfSome-one FrozenItems Frozen frozen_set (freeze_items xs) (items-Frozen xs) (λ r h. h)
  freeze-Frozen (frozen_set xs) = tt

  items-Frozen : (xs : Items) → OfSome FrozenItems (freeze_items xs)
  items-Frozen nil = tt
  items-Frozen (cons x xs) =
      OfSome-two Frozen FrozenItems FrozenItems cons (freeze x) (freeze_items xs) (freeze-Frozen x)
        (items-Frozen xs) (λ r rs h g. (h, g))

  fields-Frozen : (fs : Fields) → OfSome FrozenFields (freeze_fields fs)
  fields-Frozen end = tt
  fields-Frozen (field k v fs) =
      OfSome-two Frozen FrozenFields FrozenFields (insert_field k) (freeze v) (freeze_fields fs)
        (freeze-Frozen v) (fields-Frozen fs) (λ r rs h g. insert_field-FrozenFields k r rs h g)

mutual
  unfolding holds_set items_hold_set fields_hold_set freeze freeze_items freeze_fields

  freeze-holds_set : (j : Json) → OfSome (λ r. holds_set r ≡ holds_set j) (freeze j)
  freeze-holds_set null = refl
  freeze-holds_set (boolean b) = refl
  freeze-holds_set (integer n) = refl
  freeze-holds_set (float t) = refl
  freeze-holds_set (text t) = refl
  freeze-holds_set (array xs) =
      OfSome-one (λ r. items_hold_set r ≡ items_hold_set xs) (λ r. holds_set r ≡ items_hold_set xs)
        array (freeze_items xs) (items_keep_sets xs) (λ r h. h)
  freeze-holds_set (object fs) =
      OfSome-one (λ r. fields_hold_set r ≡ fields_hold_set fs)
        (λ r. holds_set r ≡ fields_hold_set fs) object (freeze_fields fs) (fields_keep_sets fs)
        (λ r h. h)
  freeze-holds_set (set xs) =
      OfSome-one (λ r. items_hold_set r ≡ items_hold_set xs) (λ r. holds_set r ≡ true) frozen_set
        (freeze_items xs) (items_keep_sets xs) (λ r h. refl)
  freeze-holds_set (frozen_set xs) = tt

  items_keep_sets :
      (xs : Items) → OfSome (λ r. items_hold_set r ≡ items_hold_set xs) (freeze_items xs)
  items_keep_sets nil = refl
  items_keep_sets (cons x xs) =
      OfSome-two (λ r. holds_set r ≡ holds_set x) (λ r. items_hold_set r ≡ items_hold_set xs)
        (λ r. items_hold_set r ≡ (holds_set x || items_hold_set xs)) cons (freeze x)
        (freeze_items xs) (freeze-holds_set x) (items_keep_sets xs) (λ r rs h g. rw (h, g))

  fields_keep_sets :
      (fs : Fields) → OfSome (λ r. fields_hold_set r ≡ fields_hold_set fs) (freeze_fields fs)
  fields_keep_sets end = refl
  fields_keep_sets (field k v fs) =
      OfSome-two (λ r. holds_set r ≡ holds_set v) (λ r. fields_hold_set r ≡ fields_hold_set fs)
        (λ r. fields_hold_set r ≡ (holds_set v || fields_hold_set fs)) (insert_field k) (freeze v)
        (freeze_fields fs) (freeze-holds_set v) (fields_keep_sets fs)
        (λ r rs h g. rw (insert_field-holds_set k r rs, h, g))

mutual
  unfolding Frozen FrozenItems FrozenFields holds_set items_hold_set fields_hold_set freeze
      freeze_items freeze_fields

  freeze_again : (j : Json) → Frozen j → freeze j ≡ (if holds_set j then none else some j)
  freeze_again null h = refl
  freeze_again (boolean b) h = refl
  freeze_again (integer n) h = refl
  freeze_again (float t) h = refl
  freeze_again (text t) h = refl
  freeze_again (array xs) h = ground (arith, items_again xs h)
  freeze_again (object fs) h = ground (arith, fields_again fs h)
  freeze_again (set xs) h = absurd h
  freeze_again (frozen_set xs) h = refl

  items_again :
      (xs : Items)
      → FrozenItems xs
      → freeze_items xs ≡ (if items_hold_set xs then none else some xs)
  items_again nil h = refl
  items_again (cons x xs) h = ground (arith, freeze_again x h.0, items_again xs h.1)

  fields_again :
      (fs : Fields)
      → FrozenFields fs
      → freeze_fields fs ≡ (if fields_hold_set fs then none else some fs)
  fields_again end h = refl
  fields_again (field k v fs) h =
      ground (arith, freeze_again v h.1, fields_again fs h.2, insert_field_fits k v fs h.0)

OfSome-itself : {A : Type 0} (m : Option A) → OfSome (λ a. m ≡ some a) m
OfSome-itself none = tt
OfSome-itself (some a) = refl

-- the frozen value of a key
abbrev frozen_at : String → Fields → Option Json
frozen_at key fs = elim (lookup key fs) [ none ↦ none | some v ↦ freeze v ]

fields_frozen_at :
    (key : String) (fs : Fields) → OfSome (λ r. lookup key r ≡ frozen_at key fs) (freeze_fields fs)
unfolding lookup freeze_fields
fields_frozen_at key end = refl
fields_frozen_at key (field k v fs) =
    OfSome-two (λ r. freeze v ≡ some r) (λ r. lookup key r ≡ frozen_at key fs)
      (λ r. lookup key r ≡ frozen_at key (field k v fs)) (insert_field k) (freeze v)
      (freeze_fields fs) (OfSome-itself (freeze v)) (fields_frozen_at key fs)
      (λ r rs h g. ground (arith, lookup-insert_field key k r rs))

-- What freezing a plan returns is a snapshot.
pub freeze_fields-FrozenFields :
    (fs : Fields) {gs : Fields} → freeze_fields fs ≡ some gs → FrozenFields gs
freeze_fields-FrozenFields fs h = OfSome-value FrozenFields (freeze_fields fs) h (fields-Frozen fs)

-- A snapshot without a set is frozen to itself.
pub freeze_fields_fixed :
    (fs : Fields) → FrozenFields fs → fields_hold_set fs ≡ false → freeze_fields fs ≡ some fs
freeze_fields_fixed fs f h = ground (arith, fields_again fs f)

-- Freezing a plan that it accepts gives a snapshot: at every depth the keys of its mappings are in
-- order and its sets are frozen ones. The snapshot has the keys of the plan, each with the frozen value
-- that it has there first. Freezing the snapshot again gives the snapshot itself, unless the plan held
-- a set at some depth: then it is refused.
pub freeze_fields_again :
    (fs : Fields) (key : String) {gs : Fields}
    → freeze_fields fs ≡ some gs
    → FrozenFields gs
      × (lookup key gs ≡ elim (lookup key fs) [ none ↦ none | some v ↦ freeze v ])
      × (freeze_fields gs ≡ (if fields_hold_set fs then none else some gs))
freeze_fields_again fs key {gs} h =
    let f = freeze_fields-FrozenFields fs h in
    let e : fields_hold_set gs ≡ fields_hold_set fs =
      OfSome-value (λ r. fields_hold_set r ≡ fields_hold_set fs) (freeze_fields fs) h
        (fields_keep_sets fs) in
    (
      f,
      OfSome-value (λ r. lookup key r ≡ frozen_at key fs) (freeze_fields fs) h
          (fields_frozen_at key fs),
      ground (arith, fields_again gs f),
    )
