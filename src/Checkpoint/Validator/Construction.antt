-- ===== src/Checkpoint/Validator/Construction.antt =====
-- The decisions of the validator and the constructor of `ResumeDecision`.
use tsagent.Prelude.{◌≡◌, refl, ◌∙◌, ap, true, false, not, ◌&&◌, Option, some, none, arith, is_some}
use tsagent.Prelude.Result.{Result, ok, raise_if}
use tsagent.Prelude.Text.{is_blank}
use tsagent.Checkpoint.Codes.{
  ResumeDisposition, ResumeAction, allow, reject, require_clarification, is_allow, is_clarification,
  is_waiting_user, CheckpointStatus,
}
use tsagent.Checkpoint.Contracts.{
  RunCheckpoint, ResumeDecision, create_decision, no_question, ContractError, allow_without_action,
  action_without_allow, clarification_status, clarification_without_question,
}
use tsagent.Checkpoint.Validator.Rules.{Evidence, IsProper}

-- A proper decision passes the constructor.
pub create_decision_passed :
    {c : RunCheckpoint} {ev : Evidence} (d : ResumeDecision)
    → IsProper c ev d
    → is_blank c.run_id ≡ false
    → is_blank c.checkpoint_id ≡ false
    → create_decision d ≡ ok d
unfolding create_decision
create_decision_passed {c} d h r k =
    rw (ap is_blank h.of_run ∙ r, ap is_blank h.of_checkpoint ∙ k)
      (consistent d.disposition d.action d.resulting_status h.paired h.waits h.asks)
  where
    consistent :
        (disposition : ResumeDisposition) (action : Option ResumeAction) (s : CheckpointStatus)
        → is_allow disposition ≡ is_some action
        → (is_clarification disposition ≡ true → is_waiting_user s ≡ true)
        → (is_clarification disposition ≡ true → no_question d.clarification_question ≡ false)
        → ◌≡◌ {A = Result ContractError ResumeDecision}
            (raise_if (is_allow disposition && not (is_some action)) allow_without_action (
              raise_if (not (is_allow disposition) && is_some action) action_without_allow (
                raise_if
                  (is_clarification disposition && not (is_waiting_user s))
                  clarification_status
                  (raise_if
                    (is_clarification disposition && no_question d.clarification_question)
                    clarification_without_question
                    (ok d)))))
            (ok d)
    consistent allow (some a) s p w q = refl
    consistent allow none s p w q = cc
    consistent require_clarification (some a) s p w q = cc
    consistent require_clarification none s p w q = rw (w refl, q refl)
    consistent reject (some a) s p w q = cc
    consistent reject none s p w q = refl

pub create_decision-eq-ok :
    (d : ResumeDecision) {e : ResumeDecision} → create_decision d ≡ ok e → e ≡ d
unfolding create_decision
create_decision-eq-ok d h = ground arith
