-- ===== src/WorkflowBudget/Agreement.antt =====
-- How the test, the reason and the remaining steps of a budget agree.
use tsagent.Prelude.{
  ℕ, zero, suc, ◌+◌, ◌<◌, ◌≡◌, ◌↔◌, ◌⊎◌, inl, inr, refl, Bool, true, false, Option, none, some, leb,
  ltb, arith, if◌then◌else◌,
}
use tsagent.WorkflowBudget.{
  BudgetSpec, BudgetState, ExceededReason, reached, timed_out, within_budget, exceeded,
  steps_remaining, count_step, steps_exceeded, retries_exceeded, tokens_exceeded, deadline_exceeded,
  timeout_exceeded,
}

verdicts :
    (v w x y z k : Bool)
    → ((if v
          then false
          else if w
          then false
          else if x
          then false
          else if y
          then false
          else if z
          then false
          else if k
          then false
          else true)
        ≡ false)
      ↔ (((r : ExceededReason) × ◌≡◌ {A = Option ExceededReason}
              (if v
                then some steps_exceeded
                else if w
                then some retries_exceeded
                else if x
                then some tokens_exceeded
                else if z
                then some deadline_exceeded
                else if k
                then some timeout_exceeded
                else none)
              (some r))
          ⊎ (y ≡ true))
verdicts true w x y z k = (λ h. inl (steps_exceeded, refl), λ h. refl)
verdicts false true x y z k = (λ h. inl (retries_exceeded, refl), λ h. refl)
verdicts false false true y z k = (λ h. inl (tokens_exceeded, refl), λ h. refl)
verdicts false false false true z k = (λ h. inr refl, λ h. refl)
verdicts false false false false true k = (λ h. inl (deadline_exceeded, refl), λ h. refl)
verdicts false false false false false true = (λ h. inl (timeout_exceeded, refl), λ h. refl)
verdicts false false false false false false =
    (λ h. cc, λ h. elim h [ inl (r, e) ↦ cc | inr e ↦ cc ])

-- At the same reading of the clock, the budget is used up exactly when `exceeded` gives a reason or the
-- cost has reached its limit. Of the cost `exceeded` says nothing: under another limit of the cost and
-- with another cost it gives the same answer.
pub within_budget-exceeded :
    (b : BudgetSpec) (s : BudgetState) (now : ℕ) (limit : Option ℕ) (cost : ℕ)
    → ((within_budget b s now ≡ false) ↔ (
        ((r : ExceededReason) × (exceeded b s now ≡ some r))
        ⊎ (reached b.max_cost s.cost_used ≡ true)))
      × (exceeded (record b { max_cost = limit }) (record s { cost_used = cost }) now
          ≡ exceeded b s now)
unfolding within_budget exceeded
within_budget-exceeded b s now limit cost = (
  verdicts (leb b.max_steps s.steps_used) (ltb b.max_retries s.retries_used)
      (reached b.max_tokens s.tokens_used) (reached b.max_cost s.cost_used) (reached b.deadline now)
      (timed_out b.timeout s.start_time now),
  refl,
)

-- the state behind a number of steps
unfoldable pub after_steps : ℕ → BudgetState → BudgetState
after_steps zero s = s
after_steps (suc n) s = count_step (after_steps n s)

steps_added : (n : ℕ) (s : BudgetState) → (after_steps n s).steps_used ≡ n + s.steps_used
unfolding after_steps
steps_added zero s = omega arith
steps_added (suc n) s = let e = steps_added n s in omega arith

below :
    (b : BudgetSpec) (s : BudgetState) (now : ℕ)
    → within_budget b s now ≡ true
    → s.steps_used < b.max_steps
unfolding within_budget
below b s now h = ground arith

-- A budget that still allows a step behind `n` counted ones had more than `n` steps remaining
-- before them: a loop that asks `within_budget` and counts each step ends.
pub steps_remaining-bound :
    (b : BudgetSpec) (s : BudgetState) (n now : ℕ)
    → within_budget b (after_steps n s) now ≡ true
    → n < steps_remaining b s
steps_remaining-bound b s n now h =
    let k = below b (after_steps n s) now h in let e = steps_added n s in omega arith
