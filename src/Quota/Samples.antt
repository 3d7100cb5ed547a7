-- ===== src/Quota/Samples.antt =====
-- The theorem on the quota gate at a plan of two tasks.
use planner_critic_engine.Prelude.{not, some, none, [], ◌≡◌, refl, any, str, lower, occurs_in}
use planner_critic_engine.Schema.Goal.{strict}
use planner_critic_engine.Loop.Regression.{is_gate_blocker}
use planner_critic_engine.Quota.{
  BlastRadiusQuotaConfig, quota_gate, action_findings, cluster_findings, quota_findings,
  change_findings,
}
use planner_critic_engine.Quota.Bounds.{keeps_to, quota_gate-keeps_to}
use planner_critic_engine.Loop.Samples.{ordered}

abbrev one_change : BlastRadiusQuotaConfig
one_change = record {
  max_resource_changes = some 1;
  max_destructive_actions = none;
  max_database_alterations = some 0;
  restricted_clusters = [];
  restricted_actions = [];
}

quota_gate-keeps_to_example :
    any is_gate_blocker (change_findings one_change ordered)
    ≡ not (keeps_to one_change strict ordered)
unfolding quota_gate action_findings cluster_findings quota_findings lower occurs_in str
quota_gate-keeps_to_example =
    quota_gate-keeps_to one_change strict ordered (change_findings one_change ordered) refl
