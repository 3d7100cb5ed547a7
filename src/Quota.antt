-- ===== src/Quota.antt =====
-- quota.py: the gate of the blast radius quota.
pub mod Bounds
mod Samples
use planner_critic_engine.Prelude.{
  ℕ, suc, ◌+◌, String, Bool, true, false, not, ◌&&◌, ◌||◌, Option, none, some, List, [], ◌∷◌, ◌++◌,
  map, reverse, Result, ok, text, str, repr, ◌==◌, string_eq, nat_eq, list_eq, contains, concat_map,
  codes, lower, starts_with, occurs_in, ltb, length, filter, if◌then◌else◌,
}
use planner_critic_engine.Schema.Goal.{RiskTolerance, is_strict}
use planner_critic_engine.Schema.Plan.{PlanVersion, Task}
use planner_critic_engine.Types.{Finding, Severity, blocker, warning}
use planner_critic_engine.Gates.Base.{gate_finding}

pub record BlastRadiusQuotaConfig : Type 0 where
  pub max_resource_changes : Option ℕ
  pub max_destructive_actions : Option ℕ
  pub max_database_alterations : Option ℕ
  pub restricted_clusters : List String
  pub restricted_actions : List String

abbrev pub destructive_actions : List String
destructive_actions = "delete" ∷ "destroy" ∷ "drop" ∷ "terminate" ∷ "remove" ∷ []

abbrev pub db_alternative_actions : List String
db_alternative_actions = "drop" ∷ "alter" ∷ "migrate" ∷ "truncate" ∷ "delete" ∷ "destroy" ∷ []

-- `s.lower()`, as code points
abbrev pub lowered : String → List ℕ
unfolding lower
lowered s = lower (codes s)

abbrev pub is_destructive : Task → Bool
unfolding lower
is_destructive t = contains (map codes destructive_actions) (lowered t.action)

abbrev pub is_db_target : Task → Bool
unfolding lower occurs_in
is_db_target t =
    occurs_in (codes "schema") (lowered t.target)
    || occurs_in (codes "database") (lowered t.target)
    || occurs_in (codes "db") (lowered t.target)

abbrev pub alters_database : Task → Bool
unfolding lower occurs_in
alters_database t = is_db_target t && contains (map codes db_alternative_actions) (lowered t.action)

-- `target == cluster or target.endswith(f"-{cluster}")`, both in lower case
abbrev pub in_cluster : Task → String → Bool
unfolding lower starts_with
in_cluster t cluster =
    lowered t.target == lowered cluster
    || starts_with (reverse (lowered t.target)) (reverse (45 ∷ lowered cluster))

abbrev pub posture_severity : RiskTolerance → Severity
posture_severity posture = if is_strict posture then blocker else warning

abbrev pub action_finding : RiskTolerance → PlanVersion → Task → String → Finding
unfolding repr
action_finding posture plan t restricted =
    gate_finding plan (text ("quota:restricted_action:" ∷ t.id ∷ [])) (some t.id)
      (posture_severity posture) "blast_radius_restricted_action"
      (text ("Task " ∷ t.id ∷ " uses restricted action " ∷ repr restricted ∷ []))

abbrev pub cluster_finding : RiskTolerance → PlanVersion → Task → String → Finding
unfolding repr
cluster_finding posture plan t cluster =
    gate_finding plan (text ("quota:restricted_cluster:" ∷ t.id ∷ [])) (some t.id)
      (posture_severity posture) "blast_radius_restricted_cluster"
      (text ("Task " ∷ t.id ∷ " targets restricted cluster " ∷ repr cluster ∷ []))

-- The two inner loops of the body of the loop over the tasks.
unfoldable pub action_findings :
    BlastRadiusQuotaConfig → RiskTolerance → PlanVersion → Task → List Finding
unfolding lower repr
action_findings config posture plan t =
    map (action_finding posture plan t)
      (filter (λ a. lowered t.action == lowered a) config.restricted_actions)

unfoldable pub cluster_findings :
    BlastRadiusQuotaConfig → RiskTolerance → PlanVersion → Task → List Finding
unfolding lower starts_with repr
cluster_findings config posture plan t =
    map (cluster_finding posture plan t) (filter (in_cluster t) config.restricted_clusters)

abbrev pub task_findings :
    BlastRadiusQuotaConfig → RiskTolerance → PlanVersion → Task → List Finding
task_findings config posture plan t =
    action_findings config posture plan t ++ cluster_findings config posture plan t

-- One counter against its quota.
unfoldable pub quota_findings : PlanVersion → Option ℕ → ℕ → String → String → List Finding
unfolding str
quota_findings plan none count name message = []
quota_findings plan (some limit) count name message =
    if ltb limit count
    then gate_finding plan (text ("quota:" ∷ name ∷ [])) none blocker "blast_radius_quota_breach"
        (text ("Plan " ∷ message ∷ ", exceeds quota " ∷ name ∷ "=" ∷ str limit ∷ []))
      ∷ []
    else []

abbrev pub count : (Task → Bool) → List Task → ℕ
count p ts = length (filter p ts)

-- The three counters.
abbrev pub change_findings : BlastRadiusQuotaConfig → PlanVersion → List Finding
unfolding str
change_findings config plan =
    quota_findings plan config.max_resource_changes (length plan.tasks) "max_resource_changes"
      (text ("modifies " ∷ str (length plan.tasks) ∷ " resources" ∷ []))

abbrev pub destruction_findings : BlastRadiusQuotaConfig → PlanVersion → List Finding
unfolding str lower
destruction_findings config plan =
    quota_findings plan config.max_destructive_actions (count is_destructive plan.tasks)
      "max_destructive_actions"
      (text ("has " ∷ str (count is_destructive plan.tasks) ∷ " destructive actions" ∷ []))

abbrev pub alteration_findings : BlastRadiusQuotaConfig → PlanVersion → List Finding
unfolding str lower occurs_in
alteration_findings config plan =
    quota_findings plan config.max_database_alterations (count alters_database plan.tasks)
      "max_database_alterations"
      (text ("has " ∷ str (count alters_database plan.tasks) ∷ " database alterations" ∷ []))

-- `BlastRadiusQuotaGate(config, posture).run(plan)`
unfoldable pub quota_gate :
    BlastRadiusQuotaConfig → RiskTolerance → PlanVersion → Result (List Finding)
unfolding action_findings cluster_findings quota_findings
quota_gate config posture plan = ok (
    concat_map (task_findings config posture plan) plan.tasks
    ++ change_findings config plan
    ++ destruction_findings config plan
    ++ alteration_findings config plan)
