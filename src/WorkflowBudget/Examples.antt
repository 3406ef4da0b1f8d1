-- ===== src/WorkflowBudget/Examples.antt =====
-- A budget with a limit on its cost, and the agreement applied to it.
use tsagent.Prelude.{◌<◌, ◌≡◌, ◌↔◌, ◌⊎◌, refl, true, false, none, some}
use tsagent.WorkflowBudget.{
  BudgetSpec, BudgetState, ExceededReason, reached, within_budget, exceeded, steps_remaining,
}
use tsagent.WorkflowBudget.Agreement.{within_budget-exceeded, steps_remaining-bound, after_steps}

abbrev spec : BudgetSpec
spec = record {
  max_steps = 8;
  max_retries = 0;
  max_tokens = none;
  max_cost = some 100;
  deadline = none;
  timeout = some 30;
}

abbrev spent : BudgetState
spent = record {
  steps_used = 1;
  retries_used = 0;
  tokens_used = 40;
  cost_used = 120;
  start_time = 5;
}

abbrev early : BudgetState
early = record spent { cost_used = 0 }

silent : (exceeded spec spent 9 ≡ none) × (within_budget spec spent 9 ≡ false)
unfolding exceeded within_budget
silent = (refl, refl)

within_budget-exceeded_example :
    ((within_budget spec spent 9 ≡ false) ↔ (
      ((r : ExceededReason) × (exceeded spec spent 9 ≡ some r))
      ⊎ (reached spec.max_cost spent.cost_used ≡ true)))
    × (exceeded (record spec { max_cost = none }) (record spent { cost_used = 0 }) 9
        ≡ exceeded spec spent 9)
within_budget-exceeded_example = within_budget-exceeded spec spent 9 none 0

still : within_budget spec (after_steps 3 early) 9 ≡ true
unfolding within_budget after_steps
still = refl

steps_remaining-bound_example : 3 < steps_remaining spec early
steps_remaining-bound_example = steps_remaining-bound spec early 3 9 still
