-- ===== src/Loop/Reorder.antt =====
-- loop/autofix.py, the topological repair of the task order. `set`s of ids are lists here.
pub mod Place
pub mod Lookup
pub mod Sound
use planner_critic_engine.Prelude.{
  ℕ, zero, suc, String, Bool, ◌&&◌, not, Option, none, some, List, [], ◌∷◌, ◌++◌, map, Result, ok,
  err, key_error, ◌>>=◌, collect, or_key_error, dict_get, Dict, ◌==◌, string_eq, list_eq, contains,
  unique, subset, filter, length, is_empty, any, all, ltb, if◌then◌else◌,
}
use planner_critic_engine.Schema.Plan.{PlanVersion, Task, task_eq}
use planner_critic_engine.Schema.Validate.{task_ids, hard_edges}
use planner_critic_engine.Types.{Finding, info, is_blocker}
use planner_critic_engine.Gates.Base.{gate_id, gate_finding, id_to_index, tasks_by_id}

-- `predecessors[tid]`
abbrev pub predecessors : List (String × String) → String → List String
predecessors edges tid = map (λ e. e.0) (filter (λ e. e.1 == tid) edges)

abbrev pub is_available : List (String × String) → List String → String → Bool
is_available edges placed tid = subset (predecessors edges tid) placed

-- `by_index[tid]`; every id that is asked for has an index.
abbrev pub index_or_zero : Dict String ℕ → String → ℕ
index_or_zero m k = elim (dict_get m k) [ none ↦ 0 | some n ↦ n ]

-- `min(available, key=...)`, from a first candidate.
abbrev pub pick_min : Dict String ℕ → String → List String → String
pick_min index best [] = best
pick_min index best (x ∷ xs) =
    pick_min index (if ltb (index_or_zero index x) (index_or_zero index best) then x else best) xs

abbrev pub without : String → List String → List String
without pick remaining = filter (λ y. not (pick == y)) remaining

-- The `while remaining` loop; `none` is the cycle. A round removes one id, so as many rounds as ids are
-- enough.
unfoldable pub place :
    ℕ → Dict String ℕ → List (String × String) → List String → List String → Option (List String)
place fuel index edges placed [] = some placed
place zero index edges placed (r ∷ rs) = none
place (suc fuel) index edges placed (r ∷ rs) = elim (filter (is_available edges placed) (r ∷ rs)) [
  | [] ↦ none
  | a ∷ others ↦
      let pick = pick_min index a others in
      place fuel index edges (placed ++ pick ∷ []) (without pick (r ∷ rs))
]

-- `[id_to_task[tid] for tid in placed]`
abbrev pub tasks_of : Dict String Task → List String → Result (List Task)
tasks_of m ids = collect (λ i. do t ← or_key_error (dict_get m i); ok (t ∷ [])) ids

-- `none` if nothing changes.
abbrev pub with_tasks : PlanVersion → List Task → Option PlanVersion
with_tasks plan tasks = if tasks == plan.tasks then none else some (record plan { tasks = tasks })

-- The rest of the function, after the loop.
abbrev pub reordered : PlanVersion → Option (List String) → Result (Option PlanVersion)
reordered plan none = ok none
reordered plan (some placed) = do
  tasks ← tasks_of (tasks_by_id [] plan.tasks) placed
  ok (with_tasks plan tasks)

abbrev pub topological_order : PlanVersion → Option (List String)
topological_order plan =
    place (length (unique (task_ids plan))) (id_to_index plan) (hard_edges plan) []
      (unique (task_ids plan))

unfoldable pub topological_reorder : PlanVersion → Result (Option PlanVersion)
unfolding place
topological_reorder plan =
    if is_empty (hard_edges plan)
    then ok none
    else if all (λ e. contains (task_ids plan) e.1) (hard_edges plan)
    then reordered plan (topological_order plan)
    else err key_error

abbrev pub ordering_only : List Finding → Bool
ordering_only findings =
    let blockers = filter (λ f. is_blocker f.severity) findings in
    not (is_empty blockers) && all (λ f. f.reason_code == "unsafe_ordering") blockers

abbrev pub has_cycle : List Finding → Bool
has_cycle findings = any (λ f. f.reason_code == "dependency_cycle") findings

unfoldable pub repair_trace : PlanVersion → Finding
repair_trace plan =
    gate_finding plan (gate_id "auto_repair" plan ":ordering") none info "auto_repaired_ordering"
      "auto-repaired task ordering to satisfy hard-dependency precedences"

abbrev pub traced : PlanVersion → Option PlanVersion → Option PlanVersion × List Finding
traced plan none = (none, [])
traced plan (some repaired) = (some repaired, repair_trace plan ∷ [])

unfoldable pub apply_ordering_auto_repair :
    PlanVersion → List Finding → Result (Option PlanVersion × List Finding)
apply_ordering_auto_repair plan findings =
    if not (ordering_only findings)
    then ok (none, [])
    else if has_cycle findings
    then ok (none, [])
    else (do repaired ← topological_reorder plan; ok (traced plan repaired))
