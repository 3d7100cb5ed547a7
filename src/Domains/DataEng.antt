-- ===== src/Domains/DataEng.antt =====
-- domains/data_eng/gates.py.
use planner_critic_engine.Prelude.{
  String, Bool, not, ◌&&◌, List, [], ◌∷◌, Result, ok, text, repr, str_bool, any, string_eq, ◌≡◌,
  refl, sym, ap, ◌∙◌,
}
use planner_critic_engine.Schema.Plan.{PlanVersion, Task}
use planner_critic_engine.Types.{Finding}
use planner_critic_engine.Gates.Clean.{found_eq}
use planner_critic_engine.Loop.Regression.{is_gate_blocker}
use planner_critic_engine.Domains.Flags.{
  acts, has_action, task_finding, flag, flag-blocker, flag_both, flag_both-blocker,
}

abbrev pub destructive_queries : List String
destructive_queries = "drop_table" ∷ "truncate" ∷ "delete_rows" ∷ "drop_db" ∷ []

abbrev pub backup_actions : List String
backup_actions = "create_backup" ∷ "backup" ∷ []

abbrev pub verify_backup_actions : List String
verify_backup_actions = "verify_restorable" ∷ "verify_backup" ∷ []

abbrev pub window_actions : List String
window_actions = "maintenance_window" ∷ "open_window" ∷ "begin_window" ∷ []

abbrev pub migrate_actions : List String
migrate_actions = "migrate" ∷ "live_migrate" ∷ "apply_migration" ∷ []

abbrev pub live_actions : List String
live_actions = "live_migrate" ∷ "migrate" ∷ []

abbrev pub dual_write_actions : List String
dual_write_actions = "enable_dual_write" ∷ "dual_write" ∷ []

abbrev pub fallback_actions : List String
fallback_actions = "define_fallback" ∷ "fallback_path" ∷ []

abbrev pub has_verified_backup : PlanVersion → Bool
has_verified_backup plan = has_action backup_actions plan && has_action verify_backup_actions plan

abbrev pub backup_finding : PlanVersion → Task → Finding
backup_finding plan t =
    task_finding plan "data_eng_schema_pre_verification" t "" "data_eng_destructive_without_backup"
      (text (
        "destructive query "
        ∷ repr t.id
        ∷ " lacks a verified-restorable backup (backup="
        ∷ str_bool (has_action backup_actions plan)
        ∷ ", verified="
        ∷ str_bool (has_action verify_backup_actions plan)
        ∷ ")"
        ∷ []))

-- `SchemaPreVerificationGate.run`
unfoldable pub schema_pre_verification_gate : PlanVersion → Result (List Finding)
unfolding flag
schema_pre_verification_gate plan =
    ok (flag (acts destructive_queries) (has_verified_backup plan) (backup_finding plan) plan.tasks)

abbrev pub window_finding : PlanVersion → Task → Finding
window_finding plan t =
    task_finding plan "data_eng_sla_window" t "" "data_eng_migration_outside_maintenance_window"
      (text ("migration step " ∷ repr t.id ∷ " runs outside an active maintenance window" ∷ []))

-- `SLAWindowGate.run`
unfoldable pub sla_window_gate : PlanVersion → Result (List Finding)
unfolding flag
sla_window_gate plan =
    ok (
      flag (acts migrate_actions) (has_action window_actions plan) (window_finding plan) plan.tasks)

abbrev pub dual_finding : PlanVersion → Task → Finding
dual_finding plan t =
    task_finding plan "data_eng_dual_write" t ":dual" "data_eng_migration_without_dual_write"
      (text ("live migration " ∷ repr t.id ∷ " has no dual-write enabled" ∷ []))

abbrev pub fallback_finding : PlanVersion → Task → Finding
fallback_finding plan t =
    task_finding plan "data_eng_dual_write" t ":fb" "data_eng_migration_without_fallback"
      (text ("live migration " ∷ repr t.id ∷ " has no fallback path" ∷ []))

-- `DualWriteGate.run`
unfoldable pub dual_write_gate : PlanVersion → Result (List Finding)
unfolding flag_both
dual_write_gate plan = ok (
    flag_both (acts live_actions) (has_action dual_write_actions plan) (dual_finding plan)
      (has_action fallback_actions plan) (fallback_finding plan) plan.tasks)

-- The three gates report a blocker exactly if: a task queries destructively and the plan lacks a backup
-- or its verification; a task migrates and the plan opens no window; a task migrates live and the plan
-- lacks dual writing or a fallback.
pub data_eng_gates-guards :
    (plan : PlanVersion) (unverified late single : List Finding)
    → schema_pre_verification_gate plan ≡ ok unverified
    → sla_window_gate plan ≡ ok late
    → dual_write_gate plan ≡ ok single
    → (any is_gate_blocker unverified
        ≡ (has_action destructive_queries plan && not (has_verified_backup plan)))
      × (any is_gate_blocker late
          ≡ (has_action migrate_actions plan && not (has_action window_actions plan)))
      × (any is_gate_blocker single ≡ (
          has_action live_actions plan
          && not (has_action dual_write_actions plan && has_action fallback_actions plan)))
unfolding schema_pre_verification_gate sla_window_gate dual_write_gate
data_eng_gates-guards plan unverified late single verify window dual = (
  ap (any is_gate_blocker) (sym (found_eq _ unverified verify))
      ∙ flag-blocker (acts destructive_queries) (has_verified_backup plan) (backup_finding plan)
          plan.tasks (λ t. refl),
  ap (any is_gate_blocker) (sym (found_eq _ late window))
      ∙ flag-blocker (acts migrate_actions) (has_action window_actions plan) (window_finding plan)
          plan.tasks (λ t. refl),
  ap (any is_gate_blocker) (sym (found_eq _ single dual))
      ∙ flag_both-blocker (acts live_actions) (has_action dual_write_actions plan)
          (has_action fallback_actions plan) (dual_finding plan) (fallback_finding plan) plan.tasks
          (λ t. refl) (λ t. refl),
)
