-- ===== src/Loop/Convergence.antt =====
-- loop/convergence.py: a loop that makes no progress.
use planner_critic_engine.Prelude.{
  String, Bool, false, ◌&&◌, ◌||◌, not, Option, none, some, List, [], ◌∷◌, map, ◌==◌, string_eq,
  string_ord, option_eq, pair_eq, subset, is_empty, is_some, text, join, sorted, str_bool,
  repr_list, if◌then◌else◌,
}
use planner_critic_engine.Schema.Plan.{PlanVersion, risk_value, join_value}
use planner_critic_engine.Types.{Finding}
use planner_critic_engine.Loop.Regression.{gate_blocker_keys}

-- `_plan_fingerprint`
unfoldable pub plan_fingerprint : PlanVersion → String
unfolding sorted join repr_list
plan_fingerprint plan =
    let tasks =
      map
        (λ t. text (
          t.id
          ∷ ":"
          ∷ t.action
          ∷ ":"
          ∷ risk_value t.risk_class
          ∷ ":"
          ∷ t.blast_radius
          ∷ ":"
          ∷ str_bool (is_some t.verification)
          ∷ ":"
          ∷ str_bool (is_some t.rollback)
          ∷ []))
        plan.tasks in
    let deps = map (λ d. text (d.from_task ∷ ">" ∷ d.to_task ∷ [])) plan.dependencies in
    let branches =
      map (λ b. text (b.id ∷ ":" ∷ repr_list (sorted b.tasks) ∷ ":" ∷ join_value b.join ∷ []))
        plan.branches in
    text (
      join "," (sorted tasks)
      ∷ "|"
      ∷ join "," (sorted deps)
      ∷ "|"
      ∷ join "," (sorted branches)
      ∷ [])

unfoldable pub circling_blockers : List Finding → List Finding → Bool
circling_blockers prior current =
    if is_empty prior || is_empty current
    then false
    else subset (gate_blocker_keys prior) (gate_blocker_keys current)
      && subset (gate_blocker_keys current) (gate_blocker_keys prior)
      && not (is_empty (gate_blocker_keys current))

unfoldable pub near_zero_diff : Option PlanVersion → PlanVersion → Bool
near_zero_diff none current = false
near_zero_diff (some prior) current = plan_fingerprint prior == plan_fingerprint current

unfoldable pub stalled : Option PlanVersion → List Finding → PlanVersion → List Finding → Bool
unfolding circling_blockers near_zero_diff
stalled prior prior_findings current current_findings =
    circling_blockers prior_findings current_findings || near_zero_diff prior current
