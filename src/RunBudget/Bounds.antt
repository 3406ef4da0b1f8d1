-- ===== src/RunBudget/Bounds.antt =====
-- The limits that the budget keeps.
use tsagent.Prelude.{
  ℕ, suc, ◌+◌, ◌≤◌, ◌≡◌, ◌⊎◌, inl, inr, refl, ◌↔◌, String, Bool, true, false, not, ◌&&◌, leb, ltb,
  arith, if◌then◌else◌,
}
use tsagent.RunBudget.{RunBudget, consume_transition, consume_recovery, exhausted_code, started_or}

-- The steps of a Run that goes on: the transitions that it was granted, and any recoveries. The
-- number counts the transitions.
pub data Granted (b : RunBudget) : ℕ → RunBudget → Type 0 where
  begin : Granted b 0 b
  transition :
      {n : ℕ} {c : RunBudget} (now : ℕ)
      → Granted b n c
      → (consume_transition c now).1 ≡ true
      → Granted b (suc n) (consume_transition c now).0
  recovery : {n : ℕ} {c : RunBudget} → Granted b n c → Granted b n (consume_recovery c).0

granted_below :
    (c : RunBudget) (now : ℕ)
    → (consume_transition c now).1 ≡ true
    → suc c.transitions ≤ c.max_transitions
unfolding consume_transition
granted_below c now h = ground arith

abbrev Kept : RunBudget → ℕ → RunBudget → Type 0
Kept b n c =
    (c.max_transitions ≡ b.max_transitions)
    × (c.transitions ≡ n + b.transitions)
    × ((n ≡ 0) ⊎ (c.transitions ≤ c.max_transitions))

Granted-Kept : {b c : RunBudget} {n : ℕ} → Granted b n c → Kept b n c
unfolding consume_transition consume_recovery
Granted-Kept {b} begin = (refl, omega arith, inl refl)
Granted-Kept (transition {c = c} now g h) =
    let (m, t, _) = Granted-Kept g in (m, omega arith, inr (granted_below c now h))
Granted-Kept (recovery g) = Granted-Kept g

-- However transitions and recoveries alternate, a budget grants no more transitions than its limit
-- leaves: a Run that stops at the first refusal ends.
pub Granted-bound :
    (b c : RunBudget) (n : ℕ) → Granted b n c → (n ≡ 0) ⊎ (n + b.transitions ≤ b.max_transitions)
Granted-bound b c n g = elim (Granted-Kept g).2 [
  | inl z ↦ inl z
  | inr k ↦ inr (
      bounded n b.transitions b.max_transitions c.transitions c.max_transitions (Granted-Kept g).0
        (Granted-Kept g).1 k)
]
  where
    bounded : (n t m t' m' : ℕ) → m' ≡ m → t' ≡ n + t → t' ≤ m' → n + t ≤ m
    bounded n t m t' m' p q k = omega arith

leb-ltb : (a b : ℕ) → leb a b ≡ not (ltb b a)
leb-ltb a b = ground arith

abbrev code_of : Bool → Bool → Bool → String
code_of transitions time recoveries =
    if transitions
    then "RUNTIME_TRANSITION_BUDGET_EXHAUSTED"
    else if time
    then "RUNTIME_TIME_BUDGET_EXHAUSTED"
    else if recoveries
    then "RUNTIME_RECOVERY_BUDGET_EXHAUSTED"
    else ""

code_of-refused :
    (x y z : Bool)
    → ((not x && not y) ≡ false) ↔ (
        (code_of x y z ≡ "RUNTIME_TRANSITION_BUDGET_EXHAUSTED")
        ⊎ (code_of x y z ≡ "RUNTIME_TIME_BUDGET_EXHAUSTED"))
code_of-refused true y z = (λ h. inl refl, λ h. refl)
code_of-refused false true z = (λ h. inr refl, λ h. refl)
code_of-refused false false true = (λ h. cc, λ h. elim h [ inl e ↦ cc | inr e ↦ cc ])
code_of-refused false false false = (λ h. cc, λ h. elim h [ inl e ↦ cc | inr e ↦ cc ])

-- A transition is refused exactly when the code read right after it, at the same time, names the
-- transitions or the time.
pub consume_transition-exhausted_code :
    (b : RunBudget) (now : ℕ)
    → ((consume_transition b now).1 ≡ false) ↔ (
        (exhausted_code (consume_transition b now).0 now ≡ "RUNTIME_TRANSITION_BUDGET_EXHAUSTED")
        ⊎ (exhausted_code (consume_transition b now).0 now ≡ "RUNTIME_TIME_BUDGET_EXHAUSTED"))
unfolding consume_transition exhausted_code
consume_transition-exhausted_code b now =
    rw
      (
        leb-ltb (suc b.transitions) b.max_transitions,
        leb-ltb now (started_or b now + b.max_seconds),
      )
      (code_of-refused (ltb b.max_transitions (suc b.transitions))
        (ltb (started_or b now + b.max_seconds) now) (ltb b.max_recoveries b.recoveries))
