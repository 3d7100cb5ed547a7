-- ===== src/Rollback.antt =====
-- rollback_synth.py: the rollback plan of a forward plan. The synthesizer returns the plan and the trace
-- that it leaves.
pub mod Counts
pub mod Start
pub mod Order
pub mod Twins
pub mod Reversed
pub mod Partial
mod Samples
use planner_critic_engine.Prelude.{
  ℕ, zero, suc, ◌+◌, ◌-◌, String, Bool, true, false, not, ◌&&◌, ◌||◌, Option, none, some, List, [],
  ◌∷◌, ◌++◌, map, reverse, Result, ok, err, value_error, key_error, validation_error, ◌>>=◌,
  or_key_error, text, str, repr, Dict, dict_get, dict_set, ◌==◌, string_eq, nat_eq, contains,
  filter, length, is_none, ltb, Ord, nat_ord, sorted, if◌then◌else◌,
}
use planner_critic_engine.Schema.Plan.{
  PlanVersion, Task, Dependency, DependencyKind, hard, is_hard, low, plan_schema_version,
}
use planner_critic_engine.Schema.Validate.{hard_edges, model_validate}
use planner_critic_engine.Types.{Finding, info}
use planner_critic_engine.Gates.Base.{gate_finding, tasks_by_id, id_to_index}
use planner_critic_engine.Gates.DepCycles.{successors, relax, kahn, zero_degrees, keys_where}
use planner_critic_engine.Gates.RollbackCredible.{non_reversible_actions}

pub data Reversibility : Type 0 where
  deterministic snapshot_restore non_reversible : Reversibility

abbrev pub Registry : Type 0
Registry = Dict String Reversibility

abbrev pub deterministic_inversions : Dict String String
deterministic_inversions =
    ("delete", "restore")
    ∷ ("add", "remove")
    ∷ ("disable", "enable")
    ∷ ("stop", "start")
    ∷ ("unmount", "mount")
    ∷ ("deprovision", "provision")
    ∷ ("undeploy", "deploy")
    ∷ ("revert", "apply")
    ∷ ("remove", "add")
    ∷ []

abbrev pub snapshot_restore_actions : List String
snapshot_restore_actions =
    "create" ∷ "migrate" ∷ "transform" ∷ "update" ∷ "replace" ∷ "enable" ∷ "insert" ∷ "provision"
    ∷ "deploy" ∷ "apply" ∷ []

-- `registry[action] = …` for each action
abbrev set_all : Reversibility → Registry → List String → Registry
set_all r m [] = m
set_all r m (a ∷ l) = set_all r (dict_set m a r) l

-- `registry.setdefault(action, …)` for each action
abbrev default_all : Reversibility → Registry → List String → Registry
default_all r m [] = m
default_all r m (a ∷ l) = default_all r (if is_none (dict_get m a) then dict_set m a r else m) l

-- `registry.update(extra)`
abbrev update_all : Registry → Registry → Registry
update_all m [] = m
update_all m ((a, r) ∷ l) = update_all (dict_set m a r) l

unfoldable pub action_inversion_registry : Registry → Registry
action_inversion_registry extra =
    let inverted = set_all deterministic [] (map (λ e. e.0) deterministic_inversions) in
    let restored = default_all snapshot_restore inverted snapshot_restore_actions in
    update_all (set_all non_reversible restored non_reversible_actions) extra

-- `in_degree[dep.to_task] += 1` for each edge; an unknown task raises.
abbrev pub count_known : Dict String ℕ → List (String × String) → Result (Dict String ℕ)
count_known m [] = ok m
count_known m ((src, dst) ∷ es) =
    or_key_error (dict_get m dst) >>= λ n. count_known (dict_set m dst (n + 1)) es

abbrev pub known_degrees : PlanVersion → Result (Dict String ℕ)
known_degrees plan = count_known (zero_degrees [] plan.tasks) (hard_edges plan)

unfoldable pub rollback_dag_valid : PlanVersion → Result Bool
unfolding kahn
rollback_dag_valid plan = do
  degrees ← known_degrees plan
  ok (
      (kahn (length degrees) (hard_edges plan) degrees (keys_where (λ n. n == 0) degrees) 0).1
      == length plan.tasks)

-- `by_index[t]`; every id that is looked up is one of a task.
abbrev pub position : PlanVersion → String → ℕ
position plan t = elim (dict_get (id_to_index plan) t) [ none ↦ 0 | some i ↦ i ]

abbrev pub by_index : PlanVersion → Ord String
by_index plan = record { less = λ s t. ltb (position plan s) (position plan t) }

-- The `while queue` loop, over the sorted neighbours.
unfoldable pub order_loop :
    PlanVersion → ℕ → Dict String ℕ → List String → List String → List String
unfolding sorted
order_loop plan zero m queue order = order
order_loop plan (suc fuel) m [] order = order
order_loop plan (suc fuel) m (node ∷ queue) order =
    let (m', free) = relax m (sorted ⦃o = by_index plan⦄ (successors (hard_edges plan) node)) in
    order_loop plan fuel m' (queue ++ free) (order ++ node ∷ [])

-- `_topological_order`
unfoldable pub topological_order : PlanVersion → Result (List String)
unfolding order_loop sorted
topological_order plan = do
  degrees ← known_degrees plan
  ok (
      order_loop plan (length degrees) degrees
        (sorted ⦃o = by_index plan⦄ (keys_where (λ n. n == 0) degrees)) [])

-- The order of the forward plan, where it is acyclic.
unfoldable pub forward_order : PlanVersion → Result (List String)
unfolding rollback_dag_valid topological_order
forward_order plan = do
  valid ← rollback_dag_valid plan
  if valid then topological_order plan else err value_error

abbrev pub rollback_id : String → String
rollback_id t = text ("rollback:" ∷ t ∷ [])

abbrev pub twin : Task → String → Task
twin t action = record {
  id = rollback_id t.id;
  description = text ("rollback of " ∷ t.id ∷ []);
  action = action;
  target = t.target;
  parallel_group = none;
  preconditions = [];
  verification = none;
  rollback = none;
  risk_class = low;
  blast_radius = "medium";
  satisfies = none;
}

abbrev pub skipped : String
skipped = "rollback_non_reversible_step_skipped"

abbrev pub inverse_of : String → String
inverse_of action = elim (dict_get deterministic_inversions action) [
  | none ↦ "sys.noop"
  | some a ↦ a
]

abbrev pub inverted : Option Reversibility → Task → Task × String
inverted none t = (twin t "sys.noop", skipped)
inverted (some non_reversible) t = (twin t "sys.noop", skipped)
inverted (some deterministic) t = (twin t (inverse_of t.action), "")
inverted (some snapshot_restore) t = (twin t "restore_snapshot", "")

-- `_invert_task`
unfoldable pub invert_task : Task → Registry → Task × String
invert_task t registry = inverted (dict_get registry t.action) t

abbrev pub trace_finding : PlanVersion → String → String → Finding
unfolding str repr
trace_finding plan tid reason =
    record (gate_finding plan
      (text ("rollback:" ∷ plan.id ∷ ":" ∷ str plan.version ∷ ":" ∷ tid ∷ [])) (some tid) info
      reason (text ("rollback synthesis for " ∷ repr tid ∷ ": " ∷ reason ∷ []))) { version = 1 }

-- `_invert_all`: the tasks and the trace; an id that is no task's raises.
unfoldable pub invert_all : Registry → PlanVersion → List String → Result (List Task × List Finding)
unfolding invert_task str repr
invert_all registry plan [] = ok ([], [])
invert_all registry plan (tid ∷ ids) = do
  t ← or_key_error (dict_get (tasks_by_id [] plan.tasks) tid)
  rest ← invert_all registry plan ids
  let (task, reason) = invert_task t registry
  ok (task ∷ rest.0, if reason == "" then rest.1 else trace_finding plan tid reason ∷ rest.1)

abbrev pub flip : String → Dependency → Dependency
flip reason d = record {
  from_task = rollback_id d.to_task;
  to_task = rollback_id d.from_task;
  kind = hard;
  reason = reason;
}

abbrev pub plan_finding : PlanVersion → String → String → String → String → Finding
unfolding str
plan_finding plan prefix suffix code message =
    record (gate_finding plan
      (text (prefix ∷ ":" ∷ plan.id ∷ ":" ∷ str plan.version ∷ ":" ∷ suffix ∷ [])) none info code
      message) { version = 1 }

abbrev pub generated : PlanVersion → Finding
unfolding str repr
generated plan =
    plan_finding plan "rollback" "generated" "rollback_dag_generated"
      (text ("rollback DAG generated for plan " ∷ repr plan.id ∷ []))

abbrev pub executed : PlanVersion → String → Finding
unfolding str repr
executed plan failed_step =
    plan_finding plan "rollback-partial" "executed" "rollback_execution_triggered" (
      text (
        "partial rollback executed for plan "
        ∷ repr plan.id
        ∷ " after failure at step "
        ∷ repr failed_step
        ∷ []))

abbrev pub rollback_plan : PlanVersion → String → List Task → List Dependency → PlanVersion
rollback_plan plan id tasks deps = record {
  id = text (id ∷ plan.id ∷ []);
  goal_id = plan.goal_id;
  plan_schema_version = plan_schema_version;
  version = 1;
  parent_version = some plan.id;
  tasks = tasks;
  dependencies = deps;
  branches = [];
}

abbrev pub validated : PlanVersion → List Finding → Result (PlanVersion × List Finding)
unfolding model_validate
validated p trace = if model_validate p then ok (p, trace) else err validation_error

-- `list(tid for tid in order until failed_step)`
abbrev pub completed_before : String → List String → List String
completed_before failed [] = []
completed_before failed (t ∷ order) =
    let rest = completed_before failed order in if t == failed then [] else t ∷ rest

-- The plan that `build_rollback` makes of the inverted tasks.
abbrev pub full_plan : PlanVersion → List Task → PlanVersion
full_plan plan tasks =
    rollback_plan plan "rollback-" tasks
      (map (flip "reversed for rollback") (filter (λ d. is_hard d.kind) plan.dependencies))

-- The dependencies between completed steps.
abbrev pub completed_edge : List String → Dependency → Bool
completed_edge completed d =
    is_hard d.kind
    && contains (map rollback_id completed) (rollback_id d.to_task)
    && contains (map rollback_id completed) (rollback_id d.from_task)

abbrev pub partial_plan : PlanVersion → List String → List Task → PlanVersion
partial_plan plan completed tasks = rollback_plan plan "rollback-partial-" tasks (
    map (flip "reversed for partial rollback")
      (filter (completed_edge completed) plan.dependencies))

-- `[tid for tid in _topological_order(plan) if tid in completed]`
abbrev pub completed_order : List String → String → List String
completed_order order failed_step = filter (contains (completed_before failed_step order)) order

module _ (registry : Registry) where
  unfoldable pub build_rollback : PlanVersion → Result (PlanVersion × List Finding)
  unfolding forward_order invert_all model_validate str repr
  build_rollback plan = do
    order ← forward_order plan
    r ← invert_all registry plan (reverse order)
    validated (full_plan plan r.0) (r.1 ++ generated plan ∷ [])

  unfoldable pub build_partial_rollback : PlanVersion → String → Result (PlanVersion × List Finding)
  unfolding forward_order invert_all model_validate str repr
  build_partial_rollback plan failed_step = do
    order ← forward_order plan
    r ← invert_all registry plan (reverse (completed_order order failed_step))
    validated (partial_plan plan (completed_before failed_step order) r.0)
        (r.1 ++ executed plan failed_step ∷ [])
