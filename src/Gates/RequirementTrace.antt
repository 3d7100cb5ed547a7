-- ===== src/Gates/RequirementTrace.antt =====
-- gates/requirement_trace.py: once one task names a criterion, every task must.
use planner_critic_engine.Prelude.{
  some, List, [], ◌∷◌, Result, ok, text, repr, is_some, is_none, any, concat_map, if◌then◌else◌,
}
use planner_critic_engine.Schema.Plan.{PlanVersion, Task}
use planner_critic_engine.Types.{Finding, warning}
use planner_critic_engine.Gates.Base.{gate_id, gate_finding}

abbrev trace_finding : PlanVersion → Task → Finding
trace_finding plan t =
    gate_finding plan (gate_id "requirement_trace" plan (text (":" ∷ t.id ∷ []))) (some t.id)
      warning "step_not_traced_to_criterion"
      (text (
        "task "
        ∷ repr t.id
        ∷ " does not trace to any acceptance criterion bound to the goal — the plan may be "
        ∷ "structurally sound but semantically wrong"
        ∷ []))

unfoldable pub requirement_trace : PlanVersion → Result (List Finding)
unfolding repr
requirement_trace plan = ok (
    if any (λ t. is_some t.satisfies) plan.tasks
    then concat_map (λ t. if is_none t.satisfies then trace_finding plan t ∷ [] else []) plan.tasks
    else [])
