-- ===== src/Engine/Samples.antt =====
-- The theorem on the engine at a small run with quotas.
use planner_critic_engine.Prelude.{
  String, Bool, true, false, some, none, Option, [], ◌∷◌, refl, All, lower, occurs_in,
}
use planner_critic_engine.Gates.Clean.{IsClean}
use planner_critic_engine.Quota.{
  BlastRadiusQuotaConfig, quota_gate, action_findings, cluster_findings, quota_findings,
}
use planner_critic_engine.Critique.Mode.{should_invoke_llm}
use planner_critic_engine.Loop.Roles.{default_config}
use planner_critic_engine.Loop.Samples.{
  goal, planner, silent_critic, no_hash, clock, ordered, ordered_result, program,
}
use planner_critic_engine.Engine.{
  GatesConfig, Engine, make_engine, validate, plan_goal, pack_gates, quota_gates,
}
use planner_critic_engine.Engine.Quotas.{KeepsQuota, plan_goal-KeepsQuota}

abbrev quota : Option BlastRadiusQuotaConfig
quota = some (record {
  max_resource_changes = some 2;
  max_destructive_actions = some 0;
  max_database_alterations = none;
  restricted_clusters = "prod" ∷ [];
  restricted_actions = "drop" ∷ [];
})

abbrev all_on : GatesConfig
all_on = record {
  precondition_closer = true;
  verification_ordering = true;
  rollback_credible = true;
  requirement_trace = true;
}

abbrev engine : Engine
engine = record {
  planner = planner;
  critic = silent_critic;
  config = default_config;
  domain_gates = quota_gates quota;
  posture_rules = none;
  run_budget = none;
  precondition_ledger = none;
}

abbrev no_search : String → String → Bool
no_search pattern text = false

plan_goal-KeepsQuota_example : All (IsClean ordered) (pack_gates none) × KeepsQuota quota ordered
unfolding program should_invoke_llm quota_gate action_findings cluster_findings quota_findings lower
    occurs_in make_engine validate plan_goal
plan_goal-KeepsQuota_example =
    plan_goal-KeepsQuota no_hash no_search [] clock planner silent_critic default_config none none
      none none quota all_on engine engine goal ordered_result refl refl refl
