-- ===== src/Checkpoint/Compatibility.antt =====
-- agent/checkpoint/compatibility.py: version rules of the resume validator.
pub mod Verdicts
use Prim.Native.Char.{code}
use Prim.Native.Nat.{◌*◌}
use tsagent.Prelude.{
  ℕ, ◌+◌, ◌-◌, String, Bool, true, false, ◌&&◌, ◌||◌, not, Option, none, some, List, [], ◌∷◌, ◌++◌,
  ◌==◌, ◌≡◌, refl, leb, nat_eq, is_some, if◌then◌else◌,
}
use tsagent.Prelude.Text.{◌<>◌, is_space, lstrip_by}
use tsagent.Platform.{Platform, plain_platform}
use tsagent.Checkpoint.Codes.{
  ResumeReasonCode, schema_incompatible, contract_incompatible, workflow_incompatible,
  plan_incompatible,
}
use tsagent.Checkpoint.Contracts.{RunCheckpoint, ResumeContext, RuntimeEvidence}

-- `[vV]?`
drop_v : String → String
drop_v String.[] = ""
drop_v (String.◌∷◌ c s) = if nat_eq (code c) b'v' || nat_eq (code c) b'V' then s else String.◌∷◌ c s

-- the value of `\d+` behind the digits read so far
read_digits : Platform → ℕ → String → ℕ
read_digits p n String.[] = n
read_digits p n (String.◌∷◌ c s) = elim (p.decimal (code c)) [
  | none ↦ n
  | some d ↦ read_digits p (n * 10 + d) s
]

leading_number : Platform → String → Option ℕ
unfolding read_digits
leading_number p String.[] = none
leading_number p (String.◌∷◌ c s) = elim (p.decimal (code c)) [
  | none ↦ none
  | some d ↦ some (read_digits p d s)
]

-- `major_version`; `\s*` takes the white space at the front
unfoldable pub major_version : Platform → String → Option ℕ
unfolding drop_v leading_number lstrip_by is_space
major_version p version = leading_number p (drop_v (lstrip_by is_space version))

pub record WorkflowMigration : Type 0 where
  pub workflow_id : String
  pub from_version : String
  pub to_version : String
  pub migration_id : String

pub record CompatibilityRegistry : Type 0 where
  pub current_checkpoint_schema_version : String
  pub current_contract_version : String
  pub workflow_migrations : List WorkflowMigration

-- `WorkflowMigration.matches`
abbrev pub matches : WorkflowMigration → String → String → String → Bool
matches m id from to = m.workflow_id == id && (m.from_version == from && m.to_version == to)

-- the first migration that matches
unfoldable pub migration_for :
    List WorkflowMigration → String → String → String → Option WorkflowMigration
migration_for [] id from to = none
migration_for (m ∷ ms) id from to =
    if matches m id from to then some m else migration_for ms id from to

pub record CompatibilityAssessment : Type 0 where
  pub schema_compatible : Bool
  pub contract_compatible : Bool
  pub workflow_same : Bool
  pub workflow_migratable : Bool
  pub plan_same : Bool
  pub exact_allowed : Bool
  pub replay_allowed : Bool
  pub replan_allowed : Bool
  pub reason_code : Option ResumeReasonCode
  pub evidence : List RuntimeEvidence

abbrev same_major : Option ℕ → Option ℕ → Bool
same_major (some a) (some b) = nat_eq a b
same_major _ _ = false

-- `major_version(a) is not None and major_version(a) == major_version(b)`
unfoldable pub same_major_version : Platform → String → String → Bool
unfolding major_version
same_major_version p a b = same_major (major_version p a) (major_version p b)

abbrev pub verdict : Bool → String
verdict true = "VERIFIED"
verdict false = "MISMATCH"

abbrev compatibility_evidence : String → String → String → Bool → String → RuntimeEvidence
compatibility_evidence kind expected observed fits detail = record {
  source = "compatibility";
  kind = kind;
  expected = expected;
  observed = observed;
  status = verdict fits;
  detail = detail;
}

-- the assessment that ends at an incompatible version
abbrev refused : Bool → ResumeReasonCode → List RuntimeEvidence → CompatibilityAssessment
refused schema reason evidence = record {
  schema_compatible = schema;
  contract_compatible = false;
  workflow_same = false;
  workflow_migratable = false;
  plan_same = false;
  exact_allowed = false;
  replay_allowed = false;
  replan_allowed = false;
  reason_code = some reason;
  evidence = evidence;
}

abbrev migration_name : Option WorkflowMigration → String
migration_name none = ""
migration_name (some m) = m.migration_id

abbrev version_reason : Bool → Bool → Bool → Bool → Option ResumeReasonCode
version_reason id_same same migratable plan =
    if not id_same
    then some workflow_incompatible
    else if not same && not migratable
    then some workflow_incompatible
    else if not plan
    then some plan_incompatible
    else none

-- the part behind the two version checks
unfoldable pub assess_workflow :
    RunCheckpoint
    → ResumeContext
    → CompatibilityRegistry
    → List RuntimeEvidence
    → CompatibilityAssessment
unfolding migration_for
assess_workflow c x registry evidence =
    let id_same = c.workflow_id == x.workflow_id in
    let same = id_same && c.workflow_version == x.workflow_version in
    let migration : Option WorkflowMigration =
      if id_same
      then migration_for registry.workflow_migrations c.workflow_id c.workflow_version
          x.workflow_version
      else none in
    let migratable = is_some migration in
    let plan = c.plan_version == x.plan_version in
    record {
      schema_compatible = true;
      contract_compatible = true;
      workflow_same = same;
      workflow_migratable = migratable;
      plan_same = plan;
      exact_allowed = same && plan;
      replay_allowed = same && plan;
      replan_allowed = same || migratable;
      reason_code = version_reason id_same same migratable plan;
      evidence =
          evidence
          ++ compatibility_evidence "workflow_version" (x.workflow_id <> "@" <> x.workflow_version)
              (c.workflow_id <> "@" <> c.workflow_version) (same || migratable)
              (migration_name migration)
            ∷ compatibility_evidence "plan_version" x.plan_version c.plan_version plan ""
            ∷ [];
    }

abbrev pub schema_evidence : CompatibilityRegistry → RunCheckpoint → Bool → RuntimeEvidence
schema_evidence registry c fits =
    compatibility_evidence "checkpoint_schema" registry.current_checkpoint_schema_version
      c.checkpoint_schema_version fits ""

abbrev pub contract_evidence : CompatibilityRegistry → RunCheckpoint → Bool → RuntimeEvidence
contract_evidence registry c fits =
    compatibility_evidence "contract_version" registry.current_contract_version c.contract_version
      fits ""

unfoldable pub assess_compatibility :
    Platform → RunCheckpoint → ResumeContext → CompatibilityRegistry → CompatibilityAssessment
assess_compatibility p c x registry =
    let schema =
      same_major_version p c.checkpoint_schema_version registry.current_checkpoint_schema_version in
    let contract = same_major_version p c.contract_version registry.current_contract_version in
    if not schema
    then refused false schema_incompatible (schema_evidence registry c schema ∷ [])
    else if not contract
    then refused true contract_incompatible
        (schema_evidence registry c schema ∷ contract_evidence registry c contract ∷ [])
    else assess_workflow c x registry
        (schema_evidence registry c schema ∷ contract_evidence registry c contract ∷ [])

major_version_test :
    (major_version plain_platform " v2.2A" ≡ some 2)
    × (major_version plain_platform "1.0" ≡ some 1)
    × (major_version plain_platform "x" ≡ none)
unfolding major_version
major_version_test = (refl, refl, refl)
