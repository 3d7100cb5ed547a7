-- ===== src/Domains/Samples.antt =====
-- The theorems on the gates of the packs at small plans.
use planner_critic_engine.Prelude.{
  ℕ, String, not, ◌&&◌, Option, none, some, List, [], ◌∷◌, map, ◌≡◌, refl, any, ltb, starts_with,
  ◌==◌, string_eq, if◌then◌else◌,
}
use planner_critic_engine.Schema.Plan.{PlanVersion, Task}
use planner_critic_engine.Loop.Regression.{is_gate_blocker}
use planner_critic_engine.Domains.Flags.{has_action, acts, flag}
use planner_critic_engine.Domains.Secops
use planner_critic_engine.Domains.Secops.Order
use planner_critic_engine.Domains.Finops
use planner_critic_engine.Loop.Samples.{task, swapped}

abbrev acting : String → Task
acting action = record (task action) { action = action }

abbrev plan_of : List String → PlanVersion
plan_of actions = record swapped { tasks = map acting actions; dependencies = [] }

-- Isolation before the drain, and a snapshot behind a stop.
abbrev hasty : PlanVersion
hasty = plan_of ("isolate" ∷ "drain" ∷ "stop" ∷ "snapshot" ∷ [])

secops_gates-order_example :
    (any is_gate_blocker (Secops.isolation_finding hasty (acting "isolate") ∷ [])
      ≡ any Secops.isolates (Order.before_first Secops.drains hasty.tasks))
    × (any is_gate_blocker (Secops.order_finding hasty (acting "snapshot") ∷ [])
        ≡ any Order.preserves (Order.after_first (acts Secops.destructive_actions) hasty.tasks))
    × (any is_gate_blocker []
        ≡ (any Secops.is_broad hasty.tasks && not (has_action Secops.hitl_actions hasty)))
unfolding Secops.isolations Secops.preservations Secops.blast_radius_gate Secops.forensic_order_gate
    Secops.least_privilege_gate flag starts_with
secops_gates-order_example =
    Order.secops_gates-order hasty (Secops.isolation_finding hasty (acting "isolate") ∷ [])
      (Secops.order_finding hasty (acting "snapshot") ∷ []) [] refl refl refl

abbrev costly : PlanVersion
costly = record swapped {
  tasks =
      record (acting "scale_up") { target = "70" }
      ∷ record (acting "provision") { target = "50" }
      ∷ [];
  dependencies = [];
}

abbrev price : String → Option ℕ
price s = if s == "70" then some 70 else if s == "50" then some 50 else none

finops_gates-bounds_example :
    (any is_gate_blocker []
      ≡ (has_action Finops.delete_actions costly && not (Finops.has_grace_period costly)))
    × (any is_gate_blocker (Finops.cap_finding price 100 costly ∷ []) ≡ (
        not (has_action Finops.override_actions costly)
        && ltb 100 (Finops.total_cost price costly.tasks)))
unfolding Finops.grace_period_gate Finops.budget_boundary_gate flag
finops_gates-bounds_example =
    Finops.finops_gates-bounds price 100 costly [] (Finops.cap_finding price 100 costly ∷ []) refl
      refl
