-- ===== src/Gates/SchemaValid.antt =====
-- gates/schema_valid.py
use planner_critic_engine.Prelude.{
  String, List, [], ◌∷◌, ◌++◌, none, Result, ok, text, repr, codes, strip, is_empty, any, ◌==◌,
  string_eq, if◌then◌else◌,
}
use planner_critic_engine.Schema.Plan
use planner_critic_engine.Schema.Plan.{PlanVersion}
use planner_critic_engine.Types.{Finding, blocker}
use planner_critic_engine.Gates.Base.{gate_id, gate_finding}

abbrev finding : PlanVersion → String → Finding
finding plan message =
    gate_finding plan (gate_id "schema_valid" plan "") none blocker "plan_schema_invalid" message

unfoldable pub schema_valid : PlanVersion → Result (List Finding)
unfolding strip repr
schema_valid plan = ok (
    (if is_empty plan.tasks
      then finding plan "plan has no tasks; a plan must contain at least one task" ∷ []
      else [])
    ++ ((if any (λ t. is_empty (strip (codes t.id))) plan.tasks
          then finding plan "plan contains a task with a blank id" ∷ []
          else [])
        ++ (if plan.plan_schema_version == Plan.plan_schema_version
            then []
            else finding plan (
                text (
                  "plan_schema_version "
                  ∷ repr plan.plan_schema_version
                  ∷ " is unsupported; expected "
                  ∷ repr Plan.plan_schema_version
                  ∷ []))
              ∷ [])))
