-- ===== src/RunBudget.antt =====
-- agent/runtime_budget.py: the budget of one Run. The limits are natural numbers, and a time is a
-- natural number of the clock's ticks, in which `max_seconds` is given too; `now` is the clock's
-- reading, whether the caller passes it or `perf_counter` gives it.
pub mod Bounds
mod Examples
use tsagent.Prelude.{
  ℕ, suc, ◌+◌, String, Bool, false, ◌&&◌, Option, none, some, leb, ltb, if◌then◌else◌,
}

pub record RunBudget : Type 0 where
  pub max_seconds : ℕ
  pub max_transitions : ℕ
  pub max_goal_rounds : ℕ
  pub max_recoveries : ℕ
  pub transitions : ℕ
  pub recoveries : ℕ
  pub started_at : Option ℕ

unfoldable pub start : RunBudget → ℕ → RunBudget
start b now = record b { started_at = some now }

abbrev pub started_or : RunBudget → ℕ → ℕ
started_or b now = elim b.started_at [ none ↦ now | some t ↦ t ]

-- the budget with its start, and one transition more
abbrev pub counted : RunBudget → ℕ → RunBudget
counted b now = record b { transitions = suc b.transitions; started_at = some (started_or b now) }

-- `consume_transition`: the new budget, and whether the transition is granted
unfoldable pub consume_transition : RunBudget → ℕ → RunBudget × Bool
consume_transition b now = (
  counted b now,
  leb (suc b.transitions) b.max_transitions && leb now (started_or b now + b.max_seconds),
)

unfoldable pub consume_recovery : RunBudget → RunBudget × Bool
consume_recovery b =
    (record b { recoveries = suc b.recoveries }, leb (suc b.recoveries) b.max_recoveries)

abbrev pub out_of_time : RunBudget → ℕ → Bool
out_of_time b now = elim b.started_at [ none ↦ false | some t ↦ ltb (t + b.max_seconds) now ]

unfoldable pub exhausted_code : RunBudget → ℕ → String
exhausted_code b now =
    if ltb b.max_transitions b.transitions
    then "RUNTIME_TRANSITION_BUDGET_EXHAUSTED"
    else if out_of_time b now
    then "RUNTIME_TIME_BUDGET_EXHAUSTED"
    else if ltb b.max_recoveries b.recoveries
    then "RUNTIME_RECOVERY_BUDGET_EXHAUSTED"
    else ""
