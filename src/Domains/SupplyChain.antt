-- ===== src/Domains/SupplyChain.antt =====
-- domains/supply_chain/gates.py.
use planner_critic_engine.Prelude.{
  String, Bool, not, ◌&&◌, ◌||◌, List, [], ◌∷◌, Result, ok, text, repr, any, string_eq, codes,
  occurs_in, ◌≡◌, refl, sym, ap, ◌∙◌,
}
use planner_critic_engine.Schema.Plan.{PlanVersion, Task}
use planner_critic_engine.Types.{Finding}
use planner_critic_engine.Gates.Clean.{found_eq}
use planner_critic_engine.Loop.Regression.{is_gate_blocker}
use planner_critic_engine.Domains.Flags.{
  acts, has_action, task_finding, flag, flag-blocker, flag_both, flag_both-blocker,
}
use planner_critic_engine.Domains.Secops.{ends_with}

abbrev pub manifest_actions : List String
manifest_actions = "edit_manifest" ∷ "edit_dependency" ∷ "add_dependency" ∷ []

abbrev pub lockfile_actions : List String
lockfile_actions = "regenerate_lockfile" ∷ "update_lockfile" ∷ "install" ∷ []

abbrev pub lockfile_targets : List String
lockfile_targets =
    "package-lock.json" ∷ "yarn.lock" ∷ "poetry.lock" ∷ "Pipfile.lock" ∷ "Cargo.lock" ∷ "go.sum"
    ∷ "composer.lock" ∷ []

abbrev pub regenerates : Task → Bool
regenerates t =
    acts lockfile_actions t || any (λ l. occurs_in (codes l) (codes t.target)) lockfile_targets

abbrev pub lockfile_finding : PlanVersion → Task → Finding
lockfile_finding plan t =
    task_finding plan "supply_chain_transitive_locking" t "" "supply_chain_lockfile_not_regenerated"
      (text ("manifest edit " ∷ repr t.id ∷ " has no prior lockfile regeneration step" ∷ []))

-- `TransitiveLockingGate.run`
unfoldable pub transitive_locking_gate : PlanVersion → Result (List Finding)
unfolding flag
transitive_locking_gate plan =
    ok
      (flag (acts manifest_actions) (any regenerates plan.tasks) (lockfile_finding plan) plan.tasks)

abbrev pub migration_actions : List String
migration_actions = "run_migration" ∷ "write_migration" ∷ "migrate" ∷ []

abbrev pub lints : Task → Bool
lints t = acts ("run_linter" ∷ "lint" ∷ []) t || ends_with t.action "_lint"

abbrev pub breaking_actions : List String
breaking_actions = "bump_major" ∷ "breaking_change" ∷ []

abbrev pub is_prepared : PlanVersion → Bool
is_prepared plan = has_action migration_actions plan && any lints plan.tasks

abbrev pub breaking_finding : PlanVersion → Task → Finding
breaking_finding plan t =
    task_finding plan "supply_chain_breaking_change" t ""
      "supply_chain_breaking_change_without_migration"
      (text ("major version bump " ∷ repr t.id ∷ " lacks a migration script or linter check" ∷ []))

-- `BreakingChangeGate.run`
unfoldable pub breaking_change_gate : PlanVersion → Result (List Finding)
unfolding flag
breaking_change_gate plan =
    ok (flag (acts breaking_actions) (is_prepared plan) (breaking_finding plan) plan.tasks)

abbrev pub sign_actions : List String
sign_actions = "sign_artifact" ∷ "sign" ∷ "cosign" ∷ []

abbrev pub sbom_actions : List String
sbom_actions = "generate_sbom" ∷ "generate_bom" ∷ "sbom" ∷ []

abbrev pub deploy_actions : List String
deploy_actions = "deploy" ∷ "release" ∷ "publish" ∷ []

abbrev pub sign_finding : PlanVersion → Task → Finding
sign_finding plan t =
    task_finding plan "supply_chain_artifact_integrity" t ":sign" "supply_chain_unsigned_artifact"
      (text ("deploy step " ∷ repr t.id ∷ " references an unsigned artifact" ∷ []))

abbrev pub sbom_finding : PlanVersion → Task → Finding
sbom_finding plan t =
    task_finding plan "supply_chain_artifact_integrity" t ":sbom" "supply_chain_missing_sbom"
      (text ("deploy step " ∷ repr t.id ∷ " has no generated SBOM" ∷ []))

-- `ArtifactIntegrityGate.run`
unfoldable pub artifact_integrity_gate : PlanVersion → Result (List Finding)
unfolding flag_both
artifact_integrity_gate plan = ok (
    flag_both (acts deploy_actions) (has_action sign_actions plan) (sign_finding plan)
      (has_action sbom_actions plan) (sbom_finding plan) plan.tasks)

-- The three gates report a blocker exactly if: a task edits a manifest and none regenerates or names a
-- lock file; a task breaks and the plan lacks a migration or a linter; a task deploys and the plan
-- lacks a signature or a bill of materials.
pub supply_chain_gates-guards :
    (plan : PlanVersion) (unlocked broken unsigned : List Finding)
    → transitive_locking_gate plan ≡ ok unlocked
    → breaking_change_gate plan ≡ ok broken
    → artifact_integrity_gate plan ≡ ok unsigned
    → (any is_gate_blocker unlocked
        ≡ (has_action manifest_actions plan && not (any regenerates plan.tasks)))
      × (any is_gate_blocker broken ≡ (has_action breaking_actions plan && not (is_prepared plan)))
      × (any is_gate_blocker unsigned ≡ (
          has_action deploy_actions plan
          && not (has_action sign_actions plan && has_action sbom_actions plan)))
unfolding transitive_locking_gate breaking_change_gate artifact_integrity_gate
supply_chain_gates-guards plan unlocked broken unsigned lock bump sign = (
  ap (any is_gate_blocker) (sym (found_eq _ unlocked lock))
      ∙ flag-blocker (acts manifest_actions) (any regenerates plan.tasks) (lockfile_finding plan)
          plan.tasks (λ t. refl),
  ap (any is_gate_blocker) (sym (found_eq _ broken bump))
      ∙ flag-blocker (acts breaking_actions) (is_prepared plan) (breaking_finding plan) plan.tasks
          (λ t. refl),
  ap (any is_gate_blocker) (sym (found_eq _ unsigned sign))
      ∙ flag_both-blocker (acts deploy_actions) (has_action sign_actions plan)
          (has_action sbom_actions plan) (sign_finding plan) (sbom_finding plan) plan.tasks
          (λ t. refl) (λ t. refl),
)
