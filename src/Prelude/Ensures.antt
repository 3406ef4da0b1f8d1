-- ===== src/Prelude/Ensures.antt =====
-- What holds of the value of a call whenever it returns one, by the way the call is composed.
use mathlib.Core.Path.{subst}
use tsagent.Prelude.{◌≡◌, refl, Bool, true, false, Option, none, some, if◌then◌else◌}
use tsagent.Prelude.Result.{Result, ok, err, ◌>>=◌, raise_if, ok-injective}

module _ {ℓ} {E A : Type ℓ} where
  abbrev pub Ensures : (A → Type 0) → Result E A → Type 0
  Ensures P (ok a) = P a
  Ensures P (err e) = Unit

  pub Ensures-ok : (P : A → Type 0) (m : Result E A) {a : A} → Ensures P m → m ≡ ok a → P a
  Ensures-ok P (ok b) h e = subst P (ok-injective e) h
  Ensures-ok P (err b) h e = absurd cc

  -- A hypothesis in front of the call, or of what it ensures
  pub Ensures-given :
      (H : Type 0) (P : A → Type 0) (m : Result E A) → (H → Ensures P m) → Ensures (λ a. H → P a) m
  Ensures-given H P (ok a) h = h
  Ensures-given H P (err e) h = tt

  -- A call that cannot return raises.
  pub Ensures-never : (m : Result E A) → Ensures (λ a. ⊥) m → (e : E) × (m ≡ err e)
  Ensures-never (ok a) h = absurd h
  Ensures-never (err e) h = (e, refl)

  pub Ensures-weaken :
      (P Q : A → Type 0) (m : Result E A) → Ensures P m → ((a : A) → P a → Q a) → Ensures Q m
  Ensures-weaken P Q (ok a) h k = k a h
  Ensures-weaken P Q (err e) h k = tt

  pub Ensures-if :
      (P : A → Type 0) (b : Bool) (x y : Result E A)
      → (b ≡ true → Ensures P x)
      → (b ≡ false → Ensures P y)
      → Ensures P (if b then x else y)
  Ensures-if P true x y h k = h refl
  Ensures-if P false x y h k = k refl

  pub Ensures-raise_if :
      (P : A → Type 0) (b : Bool) (e : E) (m : Result E A)
      → (b ≡ false → Ensures P m)
      → Ensures P (raise_if b e m)
  Ensures-raise_if P true e m h = tt
  Ensures-raise_if P false e m h = h refl

module _ {ℓ} {E A B : Type ℓ} where
  pub Ensures-bind :
      (P : B → Type 0) (m : Result E A) (f : A → Result E B)
      → ((a : A) → m ≡ ok a → Ensures P (f a))
      → Ensures P (m >>= f)
  Ensures-bind P (ok a) f h = h a refl
  Ensures-bind P (err e) f h = tt

module _ {ℓ} {E A B : Type ℓ} where
  pub Ensures-elim :
      (P : B → Type 0) (o : Option A) (n : Result E B) (f : A → Result E B)
      → (o ≡ none → Ensures P n)
      → ((a : A) → o ≡ some a → Ensures P (f a))
      → Ensures P (elim o [ none ↦ n | some a ↦ f a ])
  Ensures-elim P none n f h k = h refl
  Ensures-elim P (some a) n f h k = k a refl
