-- ===== src/Prelude/Result.antt =====
-- A Python call that returns a value or raises an exception of the kinds `E`.
use mathlib.Core.Path.{◌≡◌, refl}
use mathlib.Core.Bool.{Bool, true, false}

pub data Result {ℓ} (E A : Type ℓ) : Type ℓ where
  ok : A → Result E A
  err : E → Result E A

module _ {ℓ} {E A B : Type ℓ} where
  infixl 5 ◌>>=◌
  abbrev pub ◌>>=◌ : Result E A → (A → Result E B) → Result E B
  ok a >>= f = f a
  err e >>= f = err e

module _ {ℓ} {E B : Type ℓ} where
  -- `if test: raise e`
  abbrev pub raise_if : Bool → E → Result E B → Result E B
  raise_if true e k = err e
  raise_if false e k = k

  -- A call that returned passed its test.
  pub raise_if-eq-ok :
      (b : Bool) (e : E) (k : Result E B) {v : B} → raise_if b e k ≡ ok v → (b ≡ false) × (k ≡ ok v)
  raise_if-eq-ok true e k h = cc
  raise_if-eq-ok false e k h = (refl, h)

  pub raise_if_passed : (b : Bool) (e : E) (k : Result E B) → b ≡ false → raise_if b e k ≡ k
  raise_if_passed b e k h = rw h

module _ {ℓ} {E B : Type ℓ} where
  pub ok-injective : {a b : B} → ◌≡◌ {A = Result E B} (ok a) (ok b) → a ≡ b
  ok-injective h = cc
