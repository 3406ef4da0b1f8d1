-- ===== src/RuntimeStore/Sql.antt =====
-- The statements of SQL that agent/runtime_store/sqlite.py issues, on a table that is the list of
-- its rows in the order of insertion.
pub mod Laws
use Prim.Native.Nat.{Ordering}
use Prim.Native.String.{compare}
use tsagent.Prelude.{
  ℕ, suc, String, Bool, true, false, Option, none, some, List, [], ◌∷◌, ◌++◌, not, ltb,
  if◌then◌else◌,
}
use tsagent.Prelude.Lists.{any, select}
use tsagent.Prelude.Result.{Result, ok, raise_if}
use tsagent.RuntimeStore.Errors.{StoreErrorCode, invalid_argument}

module _ {ℓ} {A : Type ℓ} where
  -- `SELECT ... WHERE ...` with `fetchone`, where the condition names one row at most
  unfoldable pub fetch_one : (A → Bool) → List A → Option A
  fetch_one p [] = none
  fetch_one p (x ∷ xs) = let rest = fetch_one p xs in if p x then some x else rest

  -- `UPDATE ... SET ... WHERE ...`
  unfoldable pub update_where : (A → Bool) → (A → A) → List A → List A
  update_where p f [] = []
  update_where p f (x ∷ xs) = (if p x then f x else x) ∷ update_where p f xs

  -- `cursor.rowcount` of an update
  unfoldable pub count_where : (A → Bool) → List A → ℕ
  count_where p [] = 0
  count_where p (x ∷ xs) = let rest = count_where p xs in if p x then suc rest else rest

  -- `DELETE ... WHERE ...`
  abbrev pub delete_where : (A → Bool) → List A → List A
  delete_where p xs = select (λ x. not (p x)) xs

  -- `INSERT ... ON CONFLICT ... DO UPDATE` of every column
  abbrev pub upsert : (A → Bool) → A → List A → List A
  upsert p a xs = if any p xs then update_where p (λ x. a) xs else xs ++ a ∷ []

  -- `ORDER BY key DESC LIMIT 1` for a key that differs from row to row
  unfoldable pub greatest : (A → ℕ) → List A → Option A
  greatest key [] = none
  greatest key (x ∷ xs) = elim (greatest key xs) [
    | none ↦ some x
    | some y ↦ some (if ltb (key y) (key x) then x else y)
  ]

  -- `ORDER BY` two text columns
  unfoldable pub insert_by : (A → String) → (A → String) → A → List A → List A
  insert_by major minor x [] = x ∷ []
  insert_by major minor x (y ∷ ys) =
      let rest = insert_by major minor x ys in
      elim (compare (major x) (major y)) [
        | Ordering.lt ↦ x ∷ y ∷ ys
        | Ordering.gt ↦ y ∷ rest
        | Ordering.eq ↦ elim (compare (minor x) (minor y)) [
          | Ordering.gt ↦ y ∷ rest
          | _ ↦ x ∷ y ∷ ys
        ]
      ]

  unfoldable pub order_by : (A → String) → (A → String) → List A → List A
  order_by major minor [] = []
  order_by major minor (x ∷ xs) = insert_by major minor x (order_by major minor xs)

module _ {A : Type 0} where
  -- `INSERT`: a row that agrees with another one on a key is a constraint error.
  abbrev pub insert_unique : (A → Bool) → A → List A → Result StoreErrorCode (List A)
  insert_unique conflict a xs = raise_if (any conflict xs) invalid_argument (ok (xs ++ a ∷ []))

-- `a > b` for texts
abbrev pub text_gt : String → String → Bool
text_gt a b = elim (compare a b) [ Ordering.gt ↦ true | _ ↦ false ]
