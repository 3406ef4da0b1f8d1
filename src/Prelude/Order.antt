-- ===== src/Prelude/Order.antt =====
-- The order of texts by code points: what the sorted mappings need of `compare`.
use Prim.Native.Char.{code}
use Prim.Native.Nat.{Ordering, compare as compare_nat}
use Prim.Native.String.{String, compare, then}
use Prim.Native.String.compare
use mathlib.Core.Path.{◌≡◌, sym, ◌∙◌}
use mathlib.Core.Logic.{◌≢◌}
use native.Mathlib.Omega.{arith}

then_flip :
    (m n : Prim.Native.Nat.ℕ) (p q : Ordering)
    → then (compare_nat m n) p ≡ Ordering.gt
    → (p ≡ Ordering.gt → q ≢ Ordering.gt)
    → then (compare_nat n m) q ≢ Ordering.gt
then_flip m n p q h k e = ground arith

-- A text above another one is not below it.
pub compare_flip : (s t : String) → compare s t ≡ Ordering.gt → compare t s ≢ Ordering.gt
compare_flip String.[] String.[] h = λ e. cc (compare.nil-nil)
compare_flip String.[] (String.◌∷◌ d t) h = λ e. cc (compare.nil-cons d t)
compare_flip (String.◌∷◌ c s) String.[] h = λ e. cc (compare.nil-cons c s)
compare_flip (String.◌∷◌ c s) (String.◌∷◌ d t) h = λ e.
    then_flip (code c) (code d) (compare s t) (compare t s) (sym (compare.cons-cons c d s t) ∙ h)
      (compare_flip s t) (sym (compare.cons-cons d c t s) ∙ e)
