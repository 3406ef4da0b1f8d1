-- ===== src/Prelude/TextLaws.antt =====
-- Laws of the text tests.
use Prim.Native.String.{String}
use mathlib.Core.Path.{◌≡◌, refl}
use mathlib.Core.Bool.{true, false}
use native.Mathlib.Omega.{arith}
use text.Mathlib.Text.{◌==◌}
use text.Mathlib.TextEquality.{eq_iff}
use tsagent.Prelude.Tests.{Bool-cases}
use text.Mathlib.TextLemmas.{append-eq-nil_iff}
use mathlib.Core.Logic.{inl, inr}
use tsagent.Prelude.Text.{◌<>◌, is_empty, is_blank, strip}

pub eq_sym : (a b : String) → (a == b) ≡ (b == a)
eq_sym a b = ground (arith, eq_iff a b, eq_iff b a)

empty_blank : is_blank "" ≡ true
unfolding strip
empty_blank = refl

-- A text with a visible character is not empty.
pub is_empty_of_not-is_blank : (s : String) → is_blank s ≡ false → is_empty s ≡ false
is_empty_of_not-is_blank s h = ground (arith, eq_iff s "", empty_blank)

-- A text in front of another one shows.
pub append_seen : (s t : String) → is_empty s ≡ false → is_empty (s <> t) ≡ false
append_seen s t h = elim (Bool-cases (is_empty (s <> t))) [
  | inl e ↦ cc (h, (eq_iff s "").1 (append-eq-nil_iff.0 ((eq_iff (s <> t) "").0 e)).0)
  | inr e ↦ e
]
