-- ===== src/Checkpoint/Compatibility/Verdicts.antt =====
-- What an assessment means.
use tsagent.Prelude.{
  ℕ, String, ◌≡◌, ◌⊎◌, inl, inr, true, List, [], ◌∷◌, Option, some, none, arith, eq_iff, is_some,
  Bool-cases, Option-cases,
}
use tsagent.Platform.{Platform}
use tsagent.Checkpoint.Contracts.{RunCheckpoint, ResumeContext, RuntimeEvidence}
use tsagent.Checkpoint.Compatibility.{
  WorkflowMigration, CompatibilityRegistry, schema_evidence, contract_evidence, migration_for,
  matches, major_version, same_major, same_major_version, assess_workflow, assess_compatibility,
}

-- A migration of the registry that leads from one version of a workflow to another.
pub data Declared (id from to : String) : List WorkflowMigration → Type 0 where
  first :
      (m : WorkflowMigration) {ms : List WorkflowMigration}
      → m.workflow_id ≡ id
      → m.from_version ≡ from
      → m.to_version ≡ to
      → Declared id from to (m ∷ ms)
  later :
      (m : WorkflowMigration) {ms : List WorkflowMigration}
      → Declared id from to ms
      → Declared id from to (m ∷ ms)

migration_for-Declared :
    (ms : List WorkflowMigration) (id from to : String)
    → is_some (migration_for ms id from to) ≡ true
    → Declared id from to ms
unfolding migration_for
migration_for-Declared [] id from to h = cc
migration_for-Declared (m ∷ ms) id from to h = elim (Bool-cases (matches m id from to)) [
  | inl hit ↦
      first m (ground (arith, eq_iff m.workflow_id id)) (ground (arith, eq_iff m.from_version from))
        (ground (arith, eq_iff m.to_version to))
  | inr miss ↦ later m (migration_for-Declared ms id from to (rw miss at h))
]

-- The two major versions are read, and are equal.
abbrev pub SameMajor : Platform → String → String → Type 0
SameMajor p a b = (n : ℕ) × (major_version p a ≡ some n) × (major_version p b ≡ some n)

same_major_version-SameMajor :
    (p : Platform) (a b : String) → same_major_version p a b ≡ true → SameMajor p a b
unfolding same_major_version
same_major_version-SameMajor p a b h = elim (Option-cases (major_version p a)) [
  | inl e ↦ cc (rw (e, same_major) at h)
  | inr (n, e) ↦ (n, e, second n (major_version p b) (rw (e, same_major) at h))
]
  where
    second : (n : ℕ) (o : Option ℕ) → same_major (some n) o ≡ true → o ≡ some n
    second n none q = cc
    second n (some m) q = ground arith

-- A checkpoint whose workflow a decision may plan anew: its versions, and where it comes from.
pub record Replannable (p : Platform) (c : RunCheckpoint) (x : ResumeContext)
    (r : CompatibilityRegistry) : Type 0 where
  pub schema : SameMajor p c.checkpoint_schema_version r.current_checkpoint_schema_version
  pub contract : SameMajor p c.contract_version r.current_contract_version
  pub workflow : c.workflow_id ≡ x.workflow_id
  pub version :
      (c.workflow_version ≡ x.workflow_version)
      ⊎ Declared c.workflow_id c.workflow_version x.workflow_version r.workflow_migrations

workflow_verdict :
    (c : RunCheckpoint) (x : ResumeContext) (r : CompatibilityRegistry) (ev : List RuntimeEvidence)
    → (assess_workflow c x r ev).replan_allowed ≡ true
    → (c.workflow_id ≡ x.workflow_id)
      × ((c.workflow_version ≡ x.workflow_version)
          ⊎ (is_some (
                migration_for r.workflow_migrations c.workflow_id c.workflow_version
                  x.workflow_version)
              ≡ true))
unfolding assess_workflow
workflow_verdict c x r ev h =
    ground (arith, eq_iff c.workflow_id x.workflow_id, eq_iff c.workflow_version x.workflow_version)

exact_verdict :
    (c : RunCheckpoint) (x : ResumeContext) (r : CompatibilityRegistry) (ev : List RuntimeEvidence)
    → (assess_workflow c x r ev).exact_allowed ≡ true
    → ((assess_workflow c x r ev).replan_allowed ≡ true)
      × (c.workflow_version ≡ x.workflow_version)
      × (c.plan_version ≡ x.plan_version)
unfolding assess_workflow
exact_verdict c x r ev h =
    ground
      (arith, eq_iff c.workflow_version x.workflow_version, eq_iff c.plan_version x.plan_version)

migrated :
    (ms : List WorkflowMigration) (id from to : String)
    → (from ≡ to) ⊎ (is_some (migration_for ms id from to) ≡ true)
    → (from ≡ to) ⊎ Declared id from to ms
migrated ms id from to (inl e) = inl e
migrated ms id from to (inr h) = inr (migration_for-Declared ms id from to h)

module _ (p : Platform) (c : RunCheckpoint) (x : ResumeContext) (r : CompatibilityRegistry) where
  assessed :
      (assess_compatibility p c x r).replan_allowed ≡ true
      → (same_major_version p c.checkpoint_schema_version r.current_checkpoint_schema_version
          ≡ true)
        × (same_major_version p c.contract_version r.current_contract_version ≡ true)
        × (assess_compatibility p c x r
            ≡ assess_workflow c x r (schema_evidence r c true ∷ contract_evidence r c true ∷ []))
  unfolding assess_compatibility
  assessed h = ground arith

  exact-replan :
      (assess_compatibility p c x r).exact_allowed ≡ true
      → (assess_compatibility p c x r).replan_allowed ≡ true
  unfolding assess_compatibility assess_workflow
  exact-replan h = ground arith

  -- A replay is allowed where an exact resume is.
  pub replay-exact :
      (assess_compatibility p c x r).replay_allowed ≡ true
      → (assess_compatibility p c x r).exact_allowed ≡ true
  unfolding assess_compatibility assess_workflow
  replay-exact h = ground arith

  -- Planning anew is allowed only under equal major versions of schema and contract, for the same
  -- workflow at the same version or at one that a declared migration leads to.
  pub replan_allowed-Replannable :
      (assess_compatibility p c x r).replan_allowed ≡ true → Replannable p c x r
  replan_allowed-Replannable h =
      let (s, t, e) = assessed h in
      let (id, v) = workflow_verdict c x r _ (rw e at h) in
      record {
        schema = same_major_version-SameMajor p _ _ s;
        contract = same_major_version-SameMajor p _ _ t;
        workflow = id;
        version =
            migrated r.workflow_migrations c.workflow_id c.workflow_version x.workflow_version v;
      }

  -- An exact resume is allowed only if, besides, the versions of workflow and plan are equal.
  pub exact_allowed_sound :
      (assess_compatibility p c x r).exact_allowed ≡ true
      → Replannable p c x r
        × (c.workflow_version ≡ x.workflow_version)
        × (c.plan_version ≡ x.plan_version)
  exact_allowed_sound h =
      let r = exact-replan h in
      let (_, version, plan) = exact_verdict c x _ _ (rw (assessed r).2 at h) in
      (replan_allowed-Replannable r, version, plan)
