-- ===== src/Checkpoint/Contracts/Create.antt =====
-- The constructors: each `__post_init__` of agent/checkpoint/contracts.py that checks or normalises.
use tsagent.Prelude.{
  String, ◌≡◌, refl, Bool, true, false, not, ◌&&◌, ◌||◌, Option, none, some, List, [], ◌∷◌, map,
  ◌==◌, is_some, if◌then◌else◌,
}
use tsagent.Prelude.Int.{is_negative, is_zero, is_positive}
use tsagent.Prelude.Lists.{select}
use tsagent.Prelude.Result.{Result, ok, err, raise_if}
use tsagent.Prelude.Text.{is_empty, strip, is_blank, contains}
use tsagent.Checkpoint.Codes.{is_allow, is_clarification, is_waiting_user}
use tsagent.Checkpoint.Json.{Fields, freeze_fields}
use tsagent.Checkpoint.Contracts.Records.{
  RunCheckpoint, ResumeContext, ResumeDecision, TaskEffectRecord, ContractError, missing_identity,
  negative_sequence, initial_with_parent, missing_parent, self_parent, repeated_stage,
  repeated_task, repeated_key, repeated_effect_task, unregistered_key, not_json_like,
  decision_without_identity, allow_without_action, action_without_allow, clarification_status,
  clarification_without_question,
}

-- `_tuple_strings`
unfoldable pub tuple_strings : List String → List String
unfolding select strip
tuple_strings values = select (λ s. not (is_blank s)) values

-- `len(set(values)) != len(values)`
unfoldable pub has_repeats : List String → Bool
unfolding contains
has_repeats [] = false
has_repeats (x ∷ xs) = contains xs x || has_repeats xs

-- `a.issubset(b)`
unfoldable pub subset : List String → List String → Bool
unfolding contains
subset [] ys = true
subset (x ∷ xs) ys = contains ys x && subset xs ys

missing_names : List (String × String) → List String
unfolding strip
missing_names [] = []
missing_names ((name, value) ∷ rest) =
    let names = missing_names rest in if is_blank value then name ∷ names else names

-- The names of the required identities that are blank.
unfoldable pub missing_of : RunCheckpoint → List String
unfolding missing_names
missing_of c = missing_names (
    ("run_id", c.run_id)
    ∷ ("checkpoint_id", c.checkpoint_id)
    ∷ ("session_id", c.session_id)
    ∷ ("conversation_id", c.conversation_id)
    ∷ ("user_scope", c.user_scope)
    ∷ ("workflow_id", c.workflow_id)
    ∷ ("workflow_version", c.workflow_version)
    ∷ ("plan_version", c.plan_version)
    ∷ [])

abbrev pub is_nil {ℓ} : {A : Type ℓ} → List A → Bool
is_nil [] = true
is_nil (_ ∷ _) = false

pub is_nil-eq {ℓ} : {A : Type ℓ} (xs : List A) → is_nil xs ≡ true → xs ≡ []
is_nil-eq [] h = refl
is_nil-eq (x ∷ xs) h = cc

-- `not self.parent_checkpoint_id`
abbrev pub no_parent : Option String → Bool
no_parent none = true
no_parent (some p) = is_empty p

abbrev pub parent_is : Option String → String → Bool
parent_is none id = false
parent_is (some p) id = p == id

-- The checkpoint with the frozen plan; the texts are normalised before the repeats are looked for.
unfoldable pub normalise : RunCheckpoint → Fields → RunCheckpoint
normalise c plan = record c {
  execution_plan = plan;
  completed_stage_ids = tuple_strings c.completed_stage_ids;
  completed_task_ids = tuple_strings c.completed_task_ids;
  idempotency_keys = tuple_strings c.idempotency_keys;
  invalidation_reasons = tuple_strings c.invalidation_reasons;
}

unfoldable pub effect_keys : List TaskEffectRecord → List String
unfolding select
effect_keys records = select (λ k. not (is_empty k)) (map (λ r. r.idempotency_key) records)

-- the checks on the collections, made on the normalised checkpoint
unfoldable pub check_collections : RunCheckpoint → Result ContractError RunCheckpoint
check_collections c = raise_if (has_repeats c.completed_stage_ids) repeated_stage (
    raise_if (has_repeats c.completed_task_ids) repeated_task (
      raise_if (has_repeats c.idempotency_keys) repeated_key (
        raise_if (has_repeats (map (λ r. r.task_id) c.task_effect_records)) repeated_effect_task (
          raise_if (not (subset (effect_keys c.task_effect_records) c.idempotency_keys))
            unregistered_key (ok c)))))

-- the rest of the constructor, behind the freezing of the plan, which may raise
abbrev pub with_plan : RunCheckpoint → Option Fields → Result ContractError RunCheckpoint
with_plan c none = err not_json_like
with_plan c (some plan) = check_collections (normalise c plan)

-- `RunCheckpoint.__post_init__`
unfoldable pub create : RunCheckpoint → Result ContractError RunCheckpoint
create c = raise_if (not (is_nil (missing_of c))) (missing_identity (missing_of c)) (
    raise_if (is_negative c.sequence_number) negative_sequence (
      raise_if (is_zero c.sequence_number && is_some c.parent_checkpoint_id) initial_with_parent (
        raise_if (is_positive c.sequence_number && no_parent c.parent_checkpoint_id) missing_parent
          (raise_if (parent_is c.parent_checkpoint_id c.checkpoint_id) self_parent
            (with_plan c (freeze_fields c.execution_plan))))))

-- `ResumeContext.__post_init__`
unfoldable pub create_context : ResumeContext → ResumeContext
unfolding tuple_strings
create_context x = record x {
  candidate_run_ids = tuple_strings x.candidate_run_ids;
  required_permissions = tuple_strings x.required_permissions;
  available_permissions = tuple_strings x.available_permissions;
}

-- `not self.clarification_question`
abbrev pub no_question : Option String → Bool
no_question none = true
no_question (some q) = is_empty q

-- `ResumeDecision.__post_init__`
unfoldable pub create_decision : ResumeDecision → Result ContractError ResumeDecision
unfolding strip
create_decision d =
    raise_if (is_blank d.run_id || is_blank d.checkpoint_id) decision_without_identity (
      raise_if (is_allow d.disposition && not (is_some d.action)) allow_without_action (
        raise_if (not (is_allow d.disposition) && is_some d.action) action_without_allow (
          raise_if (is_clarification d.disposition && not (is_waiting_user d.resulting_status))
            clarification_status
            (raise_if (is_clarification d.disposition && no_question d.clarification_question)
              clarification_without_question (ok d)))))
