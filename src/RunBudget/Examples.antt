-- ===== src/RunBudget/Examples.antt =====
-- A budget of two transitions, with the limits applied to it.
use tsagent.Prelude.{ℕ, ◌≡◌, ◌≤◌, ◌+◌, ◌⊎◌, ◌↔◌, refl, false, none}
use tsagent.RunBudget.{RunBudget, consume_transition, consume_recovery, exhausted_code}
use tsagent.RunBudget.Bounds.{
  Granted, begin, transition, recovery, Granted-bound, consume_transition-exhausted_code,
}

abbrev budget : RunBudget
budget = record {
  max_seconds = 300;
  max_transitions = 2;
  max_goal_rounds = 10;
  max_recoveries = 2;
  transitions = 0;
  recoveries = 0;
  started_at = none;
}

abbrev used : RunBudget
used = (consume_transition (consume_recovery (consume_transition budget 5).0).0 9).0

used_up : Granted budget 2 used
unfolding consume_transition consume_recovery
used_up = transition 9 (recovery (transition 5 begin refl)) refl

Granted-bound_example : ◌≡◌ {A = ℕ} 2 0 ⊎ (2 + budget.transitions ≤ budget.max_transitions)
Granted-bound_example = Granted-bound budget used 2 used_up

consume_transition-exhausted_code_example : ((consume_transition used 10).1 ≡ false) ↔ (
    (exhausted_code (consume_transition used 10).0 10 ≡ "RUNTIME_TRANSITION_BUDGET_EXHAUSTED")
    ⊎ (exhausted_code (consume_transition used 10).0 10 ≡ "RUNTIME_TIME_BUDGET_EXHAUSTED"))
consume_transition-exhausted_code_example = consume_transition-exhausted_code used 10
