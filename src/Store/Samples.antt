-- ===== src/Store/Samples.antt =====
-- The theorems on the store at small stores.
use planner_critic_engine.Prelude.{
  ℕ, ◌≤◌, String, true, some, none, List, [], ◌∷◌, ◌≡◌, refl, is_some, dict_get, string_eq,
}
use planner_critic_engine.Schema.Plan.{PlanVersion, task_eq}
use planner_critic_engine.Critique.Scope.{added_task_ids, changed_task_ids}
use planner_critic_engine.Store.{InMemoryStore, empty_store, put_plan_version, get_plan}
use planner_critic_engine.Store.Replay
use planner_critic_engine.Store.Replay.{Op, run, view, replay, blank}
use planner_critic_engine.Store.History.{newest_plan, run-history}
use planner_critic_engine.Store.Latest.{get_plan-newest}
use planner_critic_engine.Store.Diff.{compute_diff}
use planner_critic_engine.Store.Diff.Same.{tasks_of, compute_diff-empty}
use planner_critic_engine.Loop.Samples.{swapped, ordered}

abbrev second : PlanVersion
second = record swapped { version = 2 }

abbrev ops : List Op
ops =
    Replay.put_plan_version swapped
    ∷ Replay.put_plan_version second
    ∷ Replay.link "plan-1" 2 "t"
    ∷ []

run-history_example :
    (view (run ops empty_store) ≡ replay ops blank)
    × ((i : String) → get_plan (run ops empty_store) i none ≡ newest_plan ops i)
run-history_example = run-history ops

abbrev two_versions : InMemoryStore
two_versions = put_plan_version (put_plan_version empty_store swapped) second

get_plan-newest_example :
    (w : ℕ) × (1 ≤ w)
    × (is_some (get_plan two_versions "plan-1" (some w)) ≡ true)
    × (get_plan two_versions "plan-1" none ≡ get_plan two_versions "plan-1" (some w))
unfolding get_plan
get_plan-newest_example = get_plan-newest two_versions "plan-1" 1 refl

compute_diff-empty_example : dict_get (tasks_of swapped) "a" ≡ dict_get (tasks_of ordered) "a"
unfolding compute_diff added_task_ids changed_task_ids
compute_diff-empty_example = compute_diff-empty swapped ordered "a" refl
