-- ===== src/Prelude/Extends.antt =====
-- One list goes on another: nothing that stands in the first is taken back.
use mathlib.Core.Path.{◌≡◌, refl, sym, ◌∙◌, ap}
use mathlib.Core.List.{List, [], ◌++◌, append-nil, append_assoc}

module _ {ℓ} {A : Type ℓ} where
  pub record Extends (xs ys : List A) : Type ℓ where
    pub more : List A
    pub joined : ys ≡ xs ++ more

  pub Extends-refl : (xs : List A) → Extends xs xs
  Extends-refl xs = record { more = []; joined = sym (append-nil xs) }

  pub Extends-append : (xs ys : List A) → Extends xs (xs ++ ys)
  Extends-append xs ys = record { more = ys; joined = refl }

  pub Extends-trans : {xs ys zs : List A} → Extends xs ys → Extends ys zs → Extends xs zs
  Extends-trans {xs} {ys} {zs} p q = record {
    more = p.more ++ q.more;
    joined = q.joined ∙ ap (λ l. l ++ q.more) p.joined ∙ append_assoc xs p.more q.more;
  }
