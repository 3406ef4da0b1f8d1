-- ===== src/WorkflowBudget.antt =====
-- agent/workflow/budget.py: the budget of a stage or task. Steps, retries and tokens are natural
-- numbers; costs and times are natural numbers of a smallest unit. `now` is the reading of the clock,
-- which one call takes for the deadline and for the time elapsed.
pub mod Agreement
mod Examples
use tsagent.Prelude.{
  ℕ, suc, ◌+◌, ◌-◌, Bool, true, false, not, ◌&&◌, Option, none, some, leb, ltb, if◌then◌else◌,
}

pub record BudgetSpec : Type 0 where
  pub max_steps : ℕ
  pub max_retries : ℕ
  pub max_tokens : Option ℕ
  pub max_cost : Option ℕ
  pub deadline : Option ℕ
  pub timeout : Option ℕ

pub record BudgetState : Type 0 where
  pub steps_used : ℕ
  pub retries_used : ℕ
  pub tokens_used : ℕ
  pub cost_used : ℕ
  pub start_time : ℕ

abbrev pub count_step : BudgetState → BudgetState
count_step s = record s { steps_used = suc s.steps_used }

abbrev pub count_retry : BudgetState → BudgetState
count_retry s = record s { retries_used = suc s.retries_used }

abbrev pub count_tokens : BudgetState → ℕ → BudgetState
count_tokens s n = record s { tokens_used = s.tokens_used + n }

abbrev pub count_cost : BudgetState → ℕ → BudgetState
count_cost s amount = record s { cost_used = s.cost_used + amount }

abbrev pub reset : BudgetState → ℕ → BudgetState
reset s now = record {
  steps_used = 0;
  retries_used = 0;
  tokens_used = 0;
  cost_used = 0;
  start_time = now;
}

-- `limit is not None and value >= limit`
abbrev pub reached : Option ℕ → ℕ → Bool
reached none value = false
reached (some limit) value = leb limit value

-- `timeout is not None and elapsed >= timeout`
abbrev pub timed_out : Option ℕ → ℕ → ℕ → Bool
timed_out none start now = false
timed_out (some t) start now = leb (start + t) now

unfoldable pub within_budget : BudgetSpec → BudgetState → ℕ → Bool
within_budget b s now =
    if leb b.max_steps s.steps_used
    then false
    else if ltb b.max_retries s.retries_used
    then false
    else if reached b.max_tokens s.tokens_used
    then false
    else if reached b.max_cost s.cost_used
    then false
    else if reached b.deadline now
    then false
    else if timed_out b.timeout s.start_time now
    then false
    else true

-- The kinds of the texts that `exceeded` returns.
pub data ExceededReason : Type 0 where
  steps_exceeded retries_exceeded tokens_exceeded : ExceededReason
  deadline_exceeded timeout_exceeded : ExceededReason

unfoldable pub exceeded : BudgetSpec → BudgetState → ℕ → Option ExceededReason
exceeded b s now =
    if leb b.max_steps s.steps_used
    then some steps_exceeded
    else if ltb b.max_retries s.retries_used
    then some retries_exceeded
    else if reached b.max_tokens s.tokens_used
    then some tokens_exceeded
    else if reached b.deadline now
    then some deadline_exceeded
    else if timed_out b.timeout s.start_time now
    then some timeout_exceeded
    else none

-- `max(0, max_steps - steps_used)`
abbrev pub steps_remaining : BudgetSpec → BudgetState → ℕ
steps_remaining b s = b.max_steps - s.steps_used
