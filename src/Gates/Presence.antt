-- ===== src/Gates/Presence.antt =====
-- gates/verification.py and gates/rollback.py: high-blast tasks carry a verification and a rollback.
use planner_critic_engine.Prelude.{
  String, ◌&&◌, some, List, [], ◌∷◌, Result, ok, text, repr, is_none, concat_map, if◌then◌else◌,
}
use planner_critic_engine.Schema.Plan.{PlanVersion, Task, is_high_blast}
use planner_critic_engine.Types.{Finding, blocker}
use planner_critic_engine.Gates.Base.{gate_id, gate_finding}

abbrev task_finding : String → String → String → PlanVersion → Task → Finding
task_finding gate code what plan t =
    gate_finding plan (gate_id gate plan (text (":" ∷ t.id ∷ []))) (some t.id) blocker code
      (text ("high-risk task " ∷ repr t.id ∷ " has no " ∷ what ∷ " step" ∷ []))

unfoldable pub verification_present : PlanVersion → Result (List Finding)
unfolding repr
verification_present plan = ok (
    concat_map
      (λ t.
        if is_high_blast t && is_none t.verification
        then task_finding "verification_present" "missing_verification" "verification" plan t ∷ []
        else [])
      plan.tasks)

unfoldable pub rollback_present : PlanVersion → Result (List Finding)
unfolding repr
rollback_present plan = ok (
    concat_map
      (λ t.
        if is_high_blast t && is_none t.rollback
        then task_finding "rollback_present" "missing_rollback" "rollback" plan t ∷ []
        else [])
      plan.tasks)
