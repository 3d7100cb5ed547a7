-- ===== src/Store/Diff.antt =====
-- store/base.py: the structural difference of two revisions. The keys of a Python `set` come in no fixed
-- order; here they come in the order of the first list that has them.
pub mod Same
use planner_critic_engine.Prelude.{
  ℕ, String, Bool, not, ◌||◌, List, [], ◌∷◌, map, Dict, dict_get, dict_set, string_eq, pair_eq,
  contains, unique, filter, is_none, is_empty,
}
use planner_critic_engine.Schema.Plan.{PlanVersion, Dependency, Branch}
use planner_critic_engine.Critique.Scope.{added_task_ids, changed_task_ids}

pub record PlanDiff : Type 0 where
  pub plan_id : String
  pub from_version : ℕ
  pub to_version : ℕ
  pub added_task_ids : List String
  pub removed_task_ids : List String
  pub changed_task_ids : List String
  pub added_dependencies : List Dependency
  pub removed_dependencies : List Dependency
  pub added_branches : List String
  pub removed_branches : List String

-- `PlanDiff.is_empty`
abbrev pub is_empty_diff : PlanDiff → Bool
is_empty_diff d = not (
    not (is_empty d.added_task_ids)
    || not (is_empty d.removed_task_ids)
    || not (is_empty d.changed_task_ids)
    || not (is_empty d.added_dependencies)
    || not (is_empty d.removed_dependencies)
    || not (is_empty d.added_branches)
    || not (is_empty d.removed_branches))

abbrev pub Edges : Type 0
Edges = Dict (String × String) Dependency

-- `{(d.from_task, d.to_task): d for d in dependencies}`
abbrev pub edges_by_ends : Edges → List Dependency → Edges
edges_by_ends m [] = m
edges_by_ends m (d ∷ ds) = edges_by_ends (dict_set m (d.from_task, d.to_task) d) ds

-- `[new[k] for k in new if k not in old]`
abbrev pub new_edges : Edges → Edges → List Dependency
new_edges old new = map (λ e. e.1) (filter (λ e. is_none (dict_get old e.0)) new)

abbrev pub branch_ids : PlanVersion → List String
branch_ids plan = unique (map (λ b. b.id) plan.branches)

-- `a - b` of two sets
abbrev pub difference : List String → List String → List String
difference a b = filter (λ x. not (contains b x)) a

unfoldable pub compute_diff : PlanVersion → PlanVersion → PlanDiff
unfolding added_task_ids changed_task_ids
compute_diff a b =
    let a_deps = edges_by_ends [] a.dependencies in
    let b_deps = edges_by_ends [] b.dependencies in
    record {
      plan_id = a.id;
      from_version = a.version;
      to_version = b.version;
      added_task_ids = added_task_ids a b;
      removed_task_ids = added_task_ids b a;
      changed_task_ids = changed_task_ids a b;
      added_dependencies = new_edges a_deps b_deps;
      removed_dependencies = new_edges b_deps a_deps;
      added_branches = difference (branch_ids b) (branch_ids a);
      removed_branches = difference (branch_ids a) (branch_ids b);
    }
