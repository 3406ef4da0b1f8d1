-- ===== src/RuntimeStore/Sql/Laws.antt =====
-- What the statements do to the row that a condition finds.
use tsagent.Prelude.{
  ◌≡◌, refl, Bool, true, false, Option, none, some, List, [], ◌∷◌, ◌++◌, arith, if◌then◌else◌, ℕ,
  ◌<◌, ◌&&◌, Bool-cases, inl, inr,
}
use tsagent.Prelude.Lists.{any, select, All}
use tsagent.RuntimeStore.Sql.{greatest, fetch_one, update_where, count_where}

module _ {ℓ} {A B : Type ℓ} where
  abbrev pub map_option : (A → B) → Option A → Option B
  map_option f none = none
  map_option f (some a) = some (f a)

module _ {ℓ} {A : Type ℓ} where
  -- The row that an update leaves, where it does not touch what the search asks of a row
  pub fetch_one-update_where :
      (p q : A → Bool) (f : A → A) (xs : List A)
      → ((x : A) → p (f x) ≡ p x)
      → fetch_one p (update_where q f xs)
        ≡ map_option (λ x. if q x then f x else x) (fetch_one p xs)
  unfolding fetch_one update_where
  fetch_one-update_where p q f [] h = refl
  fetch_one-update_where p q f (x ∷ xs) h = ground (arith, h x, fetch_one-update_where p q f xs h)

  pub fetch_one-append :
      (p : A → Bool) (xs : List A) (a : A)
      → fetch_one p (xs ++ a ∷ [])
        ≡ elim (fetch_one p xs) [ some x ↦ some x | none ↦ if p a then some a else none ]
  unfolding fetch_one
  fetch_one-append p [] a = ground arith
  fetch_one-append p (x ∷ xs) a = ground (arith, fetch_one-append p xs a)

  -- The row found meets the condition.
  pub fetch_one-met : (p : A → Bool) (xs : List A) (a : A) → fetch_one p xs ≡ some a → p a ≡ true
  unfolding fetch_one
  fetch_one-met p [] a h = cc
  fetch_one-met p (x ∷ xs) a h = ground (arith, fetch_one-met p xs a)

  -- Where no row meets the condition, none is found.
  pub fetch_one-none : (p : A → Bool) (xs : List A) → any p xs ≡ false → fetch_one p xs ≡ none
  unfolding fetch_one any
  fetch_one-none p [] h = refl
  fetch_one-none p (x ∷ xs) h = ground (arith, fetch_one-none p xs)

  pub select-append :
      (p : A → Bool) (xs : List A) (a : A)
      → select p (xs ++ a ∷ []) ≡ (if p a then select p xs ++ a ∷ [] else select p xs)
  unfolding select
  select-append p [] a = ground arith
  select-append p (x ∷ xs) a = ground (arith, select-append p xs a)

  -- A row behind others whose keys are smaller is the greatest.
  pub greatest-append :
      (key : A → ℕ) (xs : List A) (a : A)
      → All (λ x. key x < key a) xs
      → greatest key (xs ++ a ∷ []) ≡ some a
  unfolding greatest
  greatest-append key [] a h = refl
  greatest-append key (x ∷ xs) a (h, hs) = ground (arith, greatest-append key xs a hs)

module _ {ℓ} {A : Type ℓ} where
  count_where-none :
      (p q : A → Bool) (xs : List A)
      → ((x : A) → q x ≡ true → p x ≡ true)
      → count_where p xs ≡ 0
      → count_where q xs ≡ 0
  unfolding count_where
  count_where-none p q [] k h = refl
  count_where-none p q (x ∷ xs) k h = elim (Bool-cases (q x)) [
    | inl e ↦ ground (arith, k x e)
    | inr e ↦ elim (Bool-cases (p x)) [
      | inl f ↦ ground arith
      | inr f ↦ ground (arith, count_where-none p q xs k)
    ]
  ]

  -- A narrower condition that the only row meets counts one too.
  pub count_where-one :
      (p q : A → Bool) (xs : List A) (a : A)
      → ((x : A) → q x ≡ true → p x ≡ true)
      → fetch_one p xs ≡ some a
      → count_where p xs ≡ 1
      → q a ≡ true
      → count_where q xs ≡ 1
  unfolding count_where fetch_one
  count_where-one p q [] a k f c h = cc
  count_where-one p q (x ∷ xs) a k f c h = elim (Bool-cases (p x)) [
    | inl e ↦ ground (arith, count_where-none p q xs k)
    | inr e ↦ elim (Bool-cases (q x)) [
      | inl d ↦ ground (arith, k x d)
      | inr d ↦ ground (arith, count_where-one p q xs a k)
    ]
  ]

  pub any-select : (p q : A → Bool) (xs : List A) → any (λ x. p x && q x) xs ≡ any q (select p xs)
  unfolding any select
  any-select p q [] = refl
  any-select p q (x ∷ xs) = ground (arith, any-select p q xs)
