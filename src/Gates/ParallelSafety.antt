-- ===== src/Gates/ParallelSafety.antt =====
-- gates/parallel_safety.py: no two high-blast tasks in one parallel group.
use planner_critic_engine.Prelude.{
  String, none, some, List, [], ◌∷◌, map, Result, ok, text, repr, repr_list, sorted, string_ord,
  string_eq, Dict, dict_get, dict_push, filter, concat_map,
}
use planner_critic_engine.Schema.Plan.{PlanVersion, Task, is_high_blast}
use planner_critic_engine.Types.{Finding, blocker}
use planner_critic_engine.Gates.Base.{gate_id, gate_finding}

-- `by_group`: the members of each group, in task order.
abbrev pub by_group : Dict String (List Task) → List Task → Dict String (List Task)
by_group m [] = m
by_group m (t ∷ ts) = by_group (elim t.parallel_group [ none ↦ m | some g ↦ dict_push m g t ]) ts

abbrev pub members : Dict String (List Task) → String → List Task
members m g = elim (dict_get m g) [ none ↦ [] | some l ↦ l ]

abbrev group_finding : PlanVersion → String → String → List String → Finding
group_finding plan group first high_blast =
    gate_finding plan (gate_id "parallel_safety" plan (text (":" ∷ group ∷ []))) (some first)
      blocker "unsafe_parallelization"
      (text (
        "parallel_group "
        ∷ repr group
        ∷ " runs high-blast tasks "
        ∷ repr_list (sorted high_blast)
        ∷ " concurrently; failure cannot be contained"
        ∷ []))

-- A finding where at least two members are high-blast.
abbrev pub check_group : PlanVersion → String → List String → List Finding
check_group plan group [] = []
check_group plan group (first ∷ []) = []
check_group plan group (first ∷ second ∷ rest) =
    group_finding plan group first (first ∷ second ∷ rest) ∷ []

unfoldable pub parallel_safety : PlanVersion → Result (List Finding)
unfolding sorted repr repr_list
parallel_safety plan =
    let groups = by_group [] plan.tasks in
    ok (
      concat_map
        (λ g. check_group plan g (map (λ t. t.id) (filter is_high_blast (members groups g))))
        (sorted (map (λ e. e.0) groups)))
