-- ===== src/Schema/Validate.antt =====
-- `PlanVersion.model_validate` of schema/plan.py: the minimal lengths of the fields and the validator
-- `_validate_graph`. Which message is raised is left out.
use planner_critic_engine.Prelude.{
  String, Bool, true, not, ◌&&◌, ◌||◌, Option, none, some, List, [], ◌∷◌, map, Dict, ◌==◌,
  string_eq, nat_eq, option_eq, pair_eq, length, is_empty, all, contains, unique, filter, dict_push,
  leb,
}
use planner_critic_engine.Schema.Plan.{
  PlanVersion, Task, VerificationStep, RollbackStep, EnvProbe, Precondition, Dependency, Branch,
  is_hard,
}

abbrev pub task_ids : PlanVersion → List String
task_ids plan = map (λ t. t.id) plan.tasks

-- `Field(min_length=1)`
abbrev filled : String → Bool
filled s = not (s == "")

abbrev holds {ℓ} : {A : Type ℓ} → (A → Bool) → Option A → Bool
holds p none = true
holds p (some a) = p a

verification_fields : VerificationStep → Bool
verification_fields v = filled v.what && filled v.how && filled v.expected

rollback_fields : RollbackStep → Bool
rollback_fields r = filled r.trigger && filled r.action

probe_fields : EnvProbe → Bool
probe_fields p = filled p.query && filled p.expected

precondition_fields : Precondition → Bool
unfolding probe_fields
precondition_fields p = filled p.description && filled p.fact && holds probe_fields p.probe

task_fields : Task → Bool
unfolding verification_fields rollback_fields precondition_fields
task_fields t =
    filled t.id
    && filled t.description
    && all precondition_fields t.preconditions
    && holds verification_fields t.verification
    && holds rollback_fields t.rollback

dependency_fields : Dependency → Bool
dependency_fields d = filled d.from_task && filled d.to_task

branch_fields : Branch → Bool
branch_fields b = filled b.id && not (is_empty b.tasks)

unfoldable pub fields_valid : PlanVersion → Bool
unfolding task_fields dependency_fields branch_fields
fields_valid plan =
    filled plan.id
    && filled plan.goal_id
    && leb 1 plan.version
    && all task_fields plan.tasks
    && all dependency_fields plan.dependencies
    && all branch_fields plan.branches

-- The endpoints are tasks of the plan, and differ.
abbrev pub dependency_resolves : List String → Dependency → Bool
dependency_resolves ids d =
    contains ids d.from_task && contains ids d.to_task && not (d.from_task == d.to_task)

abbrev pub branch_resolves : List String → Branch → Bool
branch_resolves ids b = all (contains ids) b.tasks

-- The ids of the members of each parallel group.
groups : Dict String (List String) → List Task → Dict String (List String)
groups m [] = m
groups m (t ∷ ts) = groups (elim t.parallel_group [ none ↦ m | some g ↦ dict_push m g t.id ]) ts

abbrev pub hard_edges : PlanVersion → List (String × String)
hard_edges plan =
    map (λ d. (d.from_task, d.to_task)) (filter (λ d. is_hard d.kind) plan.dependencies)

-- No member is listed twice, and no hard edge joins two members.
group_valid : List (String × String) → List String → Bool
group_valid edges members =
    length (unique members) == length members
    && all (λ l. all (λ r. l == r || not (contains edges (l, r))) members) members

unfoldable pub validate_graph : PlanVersion → Bool
unfolding groups group_valid
validate_graph plan =
    length (unique (task_ids plan)) == length (task_ids plan)
    && all (dependency_resolves (task_ids plan)) plan.dependencies
    && all (branch_resolves (task_ids plan)) plan.branches
    && all (λ g. group_valid (hard_edges plan) g.1) (groups [] plan.tasks)

-- `PlanVersion.model_validate(data)` succeeds.
unfoldable pub model_validate : PlanVersion → Bool
unfolding fields_valid validate_graph
model_validate plan = fields_valid plan && validate_graph plan
