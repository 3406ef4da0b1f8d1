-- ===== src/Checkpoint/Validator/Decisions.antt =====
-- The helpers of agent/checkpoint/validator.py that build a decision, and its early returns.
use tsagent.Prelude.{String, Option, none, some, List, [], ◌∷◌, ◌++◌}
use tsagent.Checkpoint.Codes.{
  CheckpointStatus, ResumeDisposition, ResumeAction, ResumeReasonCode, allow, require_clarification,
  reject, abandon_and_restart, cancelled, running, waiting_user,
}
use tsagent.Checkpoint.Contracts.{RunCheckpoint, ResumeDecision, RuntimeEvidence}

-- A step of the validator returns its decision, or goes on.
pub data Outcome (A : Type 0) : Type 0 where
  decided : ResumeDecision → Outcome A
  continue : A → Outcome A

infixl 5 ◌>>=◌
abbrev pub ◌>>=◌ : {A B : Type 0} → Outcome A → (A → Outcome B) → Outcome B
decided d >>= f = decided d
continue a >>= f = f a

abbrev pub settled : Outcome ResumeDecision → ResumeDecision
settled (decided d) = d
settled (continue d) = d

-- `_evidence`
abbrev pub validator_evidence : String → String → String → String → String → RuntimeEvidence
validator_evidence kind expected observed status detail = record {
  source = "resume_validator";
  kind = kind;
  expected = expected;
  observed = observed;
  status = status;
  detail = detail;
}

-- `evidence.append(_evidence(...))`
abbrev pub noted :
    List RuntimeEvidence → String → String → String → String → String → List RuntimeEvidence
noted ev kind expected observed status detail =
    ev ++ validator_evidence kind expected observed status detail ∷ []

abbrev pub resulting : RunCheckpoint → ResumeDisposition → Option ResumeAction → CheckpointStatus
resulting c allow (some abandon_and_restart) = cancelled
resulting c allow action = running
resulting c require_clarification action = waiting_user
resulting c reject action = c.status

-- `_make_decision`
abbrev pub make_decision :
    RunCheckpoint
    → ResumeDisposition
    → Option ResumeAction
    → ResumeReasonCode
    → List RuntimeEvidence
    → Option String
    → Option String
    → Option String
    → ResumeDecision
make_decision c disposition action reason ev stage task question = record {
  disposition = disposition;
  action = action;
  run_id = c.run_id;
  checkpoint_id = c.checkpoint_id;
  resume_stage_id = stage;
  resume_task_id = task;
  resulting_status = resulting c disposition action;
  reason_code = reason;
  evidence = ev;
  clarification_question = question;
}

-- `_clarify`
abbrev pub clarify_with :
    RunCheckpoint → ResumeReasonCode → List RuntimeEvidence → String → ResumeDecision
clarify_with c reason ev question =
    make_decision c require_clarification none reason ev none none (some question)

-- `_reject`
abbrev pub reject_with : RunCheckpoint → ResumeReasonCode → List RuntimeEvidence → ResumeDecision
reject_with c reason ev = make_decision c reject none reason ev none none none

-- The same, as the end of a step.
abbrev pub ask :
    {A : Type 0} → RunCheckpoint → ResumeReasonCode → List RuntimeEvidence → String → Outcome A
ask c reason ev question = decided (clarify_with c reason ev question)

abbrev pub deny : {A : Type 0} → RunCheckpoint → ResumeReasonCode → List RuntimeEvidence → Outcome A
deny c reason ev = decided (reject_with c reason ev)
