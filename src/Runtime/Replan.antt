-- ===== src/Runtime/Replan.antt =====
-- replan.py: the metadata of a replanned revision.
use planner_critic_engine.Prelude.{
  ◌+◌, some, Result, ok, err, planning_error, validation_error, if◌then◌else◌,
}
use planner_critic_engine.Schema.Goal.{Goal, ReplanPolicy, abort, patch, restart}
use planner_critic_engine.Schema.Plan.{PlanVersion, plan_schema_version}
use planner_critic_engine.Schema.Validate.{model_validate}

-- The constructor of the model validates what it is given.
abbrev pub validated : PlanVersion → Result PlanVersion
unfolding model_validate
validated plan = if model_validate plan then ok plan else err validation_error

abbrev stamped : PlanVersion → PlanVersion → PlanVersion
stamped current revised = record {
  id = current.id;
  goal_id = current.goal_id;
  plan_schema_version = plan_schema_version;
  version = current.version + 1;
  parent_version = some current.id;
  tasks = revised.tasks;
  dependencies = revised.dependencies;
  branches = revised.branches;
}

abbrev by_policy : ReplanPolicy → PlanVersion → PlanVersion → Result PlanVersion
by_policy abort current revised = err (planning_error "planning_unavailable")
by_policy patch current revised = validated (stamped current revised)
by_policy restart current revised = validated (stamped current revised)

unfoldable pub replan : Goal → PlanVersion → PlanVersion → Result PlanVersion
unfolding model_validate
replan goal current revised = by_policy goal.replan_policy current revised
