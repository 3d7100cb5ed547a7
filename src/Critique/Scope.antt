-- ===== src/Critique/Scope.antt =====
-- critique/diff.py, with the task part of `_compute_diff` of store/base.py: the tasks that the critic
-- audits again, the changed ones and all that depend on them.
use planner_critic_engine.Prelude.{
  ℕ, zero, suc, ◌+◌, String, ◌&&◌, not, Option, none, some, List, [], ◌∷◌, ◌++◌, map, Dict,
  dict_get, ◌==◌, string_eq, string_ord, option_eq, contains, unique, filter, length, is_none,
  is_some, sorted, if◌then◌else◌,
}
use planner_critic_engine.Schema.Plan.{PlanVersion, Task, Dependency, task_eq}
use planner_critic_engine.Gates.Base.{tasks_by_id}

abbrev keys : Dict String Task → List String
keys m = map (λ e. e.0) m

-- `added_task_ids` and `changed_task_ids` of the difference from `a` to `b`
unfoldable pub added_task_ids : PlanVersion → PlanVersion → List String
added_task_ids a b =
    filter (λ k. is_none (dict_get (tasks_by_id [] a.tasks) k)) (keys (tasks_by_id [] b.tasks))

unfoldable pub changed_task_ids : PlanVersion → PlanVersion → List String
changed_task_ids a b =
    let old = tasks_by_id [] a.tasks in
    let new = tasks_by_id [] b.tasks in
    filter (λ k. is_some (dict_get new k) && not (dict_get old k == dict_get new k)) (keys old)

-- `rev.get(current, [])`
abbrev pub dependents : List Dependency → String → List String
dependents deps current = map (λ d. d.to_task) (filter (λ d. d.from_task == current) deps)

-- The inner loop: what is new joins the closure and the frontier, whose top is the head.
abbrev pub push_new : List String → List String → List String → List String × List String
push_new closure frontier [] = (closure, frontier)
push_new closure frontier (d ∷ ds) =
    push_new (if contains closure d then closure else d ∷ closure)
      (if contains closure d then frontier else d ∷ frontier) ds

-- The `while frontier` loop. A task is pushed once, so the number of the changed tasks and the edges
-- bounds the rounds.
unfoldable pub close : ℕ → List Dependency → List String → List String → List String
close zero deps closure frontier = closure
close (suc fuel) deps closure [] = closure
close (suc fuel) deps closure (current ∷ frontier) =
    let (closure', frontier') = push_new closure frontier (dependents deps current) in
    close fuel deps closure' frontier'

unfoldable pub dependent_closure : PlanVersion → List String → List String
unfolding close sorted
dependent_closure plan changed = sorted (
    close (length changed + length plan.dependencies) plan.dependencies (unique changed)
      (unique changed))

unfoldable pub scope_between : Option PlanVersion → PlanVersion → List String
unfolding dependent_closure added_task_ids changed_task_ids
scope_between none plan = map (λ t. t.id) plan.tasks
scope_between (some parent) plan =
    dependent_closure plan (added_task_ids parent plan ++ changed_task_ids parent plan)
