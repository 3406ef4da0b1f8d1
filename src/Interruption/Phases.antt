-- ===== src/Interruption/Phases.antt =====
-- agent/interruption/lifecycle.py: the phases of an intent.
use tsagent.Prelude.{ℕ, suc, ◌+◌, ◌<◌, ◌≤◌, ◌≡◌, refl, Bool, true, false, arith}
use tsagent.Interruption.Codes.{InterruptionPhase, requested, observed, cancelling, finalized}

-- `ALLOWED_PHASE_TRANSITIONS` and `allowed_phase_transition`
unfoldable pub allowed_phase_transition : InterruptionPhase → InterruptionPhase → Bool
allowed_phase_transition requested observed = true
allowed_phase_transition observed cancelling = true
allowed_phase_transition observed finalized = true
allowed_phase_transition cancelling finalized = true
allowed_phase_transition _ _ = false

-- A sequence of allowed transitions, with their number.
pub data Steps (s : InterruptionPhase) : ℕ → InterruptionPhase → Type 0 where
  here : Steps s 0 s
  next :
      {n : ℕ} {t u : InterruptionPhase}
      → Steps s n t
      → allowed_phase_transition t u ≡ true
      → Steps s (suc n) u

abbrev rank : InterruptionPhase → ℕ
rank requested = 0
rank observed = 1
rank cancelling = 2
rank finalized = 3

rises : (t u : InterruptionPhase) → allowed_phase_transition t u ≡ true → rank t < rank u
unfolding allowed_phase_transition
rises t u h = ground arith

Steps-rank : {s t : InterruptionPhase} {n : ℕ} → Steps s n t → n + rank s ≤ rank t
Steps-rank here = omega arith
Steps-rank (next {t = t} {u = u} p h) = let a = Steps-rank p in let b = rises t u h in omega arith

rank_bound : (s : InterruptionPhase) → rank s ≤ 3
rank_bound s = ground arith

-- An intent never goes back: it changes its phase three times at most, whatever phase it begins in.
pub Steps-bound : (s t : InterruptionPhase) (n : ℕ) → Steps s n t → n ≤ 3
Steps-bound s t n p = let a = Steps-rank p in let b = rank_bound t in omega arith

-- From every phase the intent can be finalized.
finalized_reached : (s : InterruptionPhase) → (n : ℕ) × Steps s n finalized
unfolding allowed_phase_transition
finalized_reached requested = (2, next {t = observed} (next here refl) refl)
finalized_reached observed = (1, next here refl)
finalized_reached cancelling = (1, next here refl)
finalized_reached finalized = (0, here)
