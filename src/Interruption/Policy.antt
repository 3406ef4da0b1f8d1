-- ===== src/Interruption/Policy.antt =====
-- agent/interruption/policy.py: what each reason leads to, and where it may be acted on.
use tsagent.Prelude.{◌≡◌, ◌↔◌, refl, Bool, true, false, Option, none, some}
use tsagent.Prelude.Result.{ok}
use tsagent.Interruption.Codes.{
  InterruptionReason, user_cancel, run_timeout, stage_timeout, tool_timeout, provider_timeout,
  service_shutdown, cancel_at_safe_boundary, time_out_at_safe_boundary, suspend_at_safe_boundary,
  delegate_to_decision, cancelled, timed_out, suspended, CancellationSafetyClass, interruptible,
  SafeCancellationBoundary, during_interruptible_wait, AtomicRegion,
}
use tsagent.Interruption.Contracts.{InterruptionPolicy, create_policy}

abbrev delegated : InterruptionReason → InterruptionPolicy
delegated why = record {
  reason = why;
  action = delegate_to_decision;
  resulting_status = none;
  resume_allowed = false;
  decision_owned = true;
}

-- `_POLICIES` and `interruption_policy`
unfoldable pub interruption_policy : InterruptionReason → InterruptionPolicy
interruption_policy user_cancel = record {
  reason = user_cancel;
  action = cancel_at_safe_boundary;
  resulting_status = some cancelled;
  resume_allowed = false;
  decision_owned = false;
}
interruption_policy run_timeout = record {
  reason = run_timeout;
  action = time_out_at_safe_boundary;
  resulting_status = some timed_out;
  resume_allowed = false;
  decision_owned = false;
}
interruption_policy service_shutdown = record {
  reason = service_shutdown;
  action = suspend_at_safe_boundary;
  resulting_status = some suspended;
  resume_allowed = true;
  decision_owned = false;
}
interruption_policy stage_timeout = delegated stage_timeout
interruption_policy tool_timeout = delegated tool_timeout
interruption_policy provider_timeout = delegated provider_timeout

abbrev pub is_interruptible : CancellationSafetyClass → Bool
is_interruptible interruptible = true
is_interruptible _ = false

-- `can_observe_interruption`, at a boundary inside no atomic region or inside one
unfoldable pub can_observe_interruption :
    SafeCancellationBoundary → CancellationSafetyClass → Option AtomicRegion → Bool
can_observe_interruption point safety (some region) = false
can_observe_interruption during_interruptible_wait safety none = is_interruptible safety
can_observe_interruption point safety none = true

-- Every policy of the table is for its own reason and passes the checks of its constructor, and a
-- Run may be resumed exactly after the interruptions that suspend it.
pub interruption_policy_table :
    (why : InterruptionReason)
    → (create_policy (interruption_policy why) ≡ ok (interruption_policy why))
      × ((interruption_policy why).reason ≡ why)
      × (((interruption_policy why).resume_allowed ≡ true)
          ↔ ((interruption_policy why).resulting_status ≡ some suspended))
unfolding interruption_policy create_policy
interruption_policy_table user_cancel = (refl, refl, (λ h. cc, λ h. cc))
interruption_policy_table run_timeout = (refl, refl, (λ h. cc, λ h. cc))
interruption_policy_table stage_timeout = (refl, refl, (λ h. cc, λ h. cc))
interruption_policy_table tool_timeout = (refl, refl, (λ h. cc, λ h. cc))
interruption_policy_table provider_timeout = (refl, refl, (λ h. cc, λ h. cc))
interruption_policy_table service_shutdown = (refl, refl, (λ h. refl, λ h. refl))
