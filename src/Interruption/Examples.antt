-- ===== src/Interruption/Examples.antt =====
-- An accepted cancel request and a short life of its intent, with the properties applied to them.
use tsagent.Prelude.{◌≡◌, ◌≤◌, ◌↔◌, refl, true, some, false}
use tsagent.Prelude.Result.{ok}
use tsagent.Prelude.Text.{strip, is_blank}
use tsagent.Interruption.Codes.{
  user_cancel, service_shutdown, suspended, requested, observed, cancelling, finalized,
}
use tsagent.Interruption.Contracts.{
  CancelRunRequest, required, create_request, create_intent, create_policy, intent_of_request,
  create_request-create_intent,
}
use tsagent.Interruption.Policy.{interruption_policy, interruption_policy_table}
use tsagent.Interruption.Phases.{Steps, here, next, allowed_phase_transition, Steps-bound}

abbrev request : CancelRunRequest
request = record {
  tenant_id = "tenant";
  user_id = "user";
  session_id = "session";
  run_id = "run";
  request_id = "r1";
  requested_by = "user";
  reason = user_cancel;
}

accepted : create_request request ≡ ok request
unfolding create_request required strip
accepted = refl

create_request-create_intent_example :
    (create_intent (intent_of_request request "2026-01-01T00:00:00Z")
      ≡ ok (intent_of_request request "2026-01-01T00:00:00Z"))
    × (request.reason ≡ user_cancel)
    × (is_blank request.tenant_id ≡ false)
    × (is_blank request.user_id ≡ false)
    × (is_blank request.session_id ≡ false)
    × (is_blank request.run_id ≡ false)
    × (is_blank request.request_id ≡ false)
    × (is_blank request.requested_by ≡ false)
unfolding strip
create_request-create_intent_example =
    create_request-create_intent request request "2026-01-01T00:00:00Z" accepted refl

interruption_policy_table_example :
    (create_policy (interruption_policy service_shutdown)
      ≡ ok (interruption_policy service_shutdown))
    × ((interruption_policy service_shutdown).reason ≡ service_shutdown)
    × (((interruption_policy service_shutdown).resume_allowed ≡ true)
        ↔ ((interruption_policy service_shutdown).resulting_status ≡ some suspended))
interruption_policy_table_example = interruption_policy_table service_shutdown

whole_life : Steps requested 3 finalized
unfolding allowed_phase_transition
whole_life = next {t = cancelling} (next {t = observed} (next here refl) refl) refl

Steps-bound_example : 3 ≤ 3
Steps-bound_example = Steps-bound requested finalized 3 whole_life
