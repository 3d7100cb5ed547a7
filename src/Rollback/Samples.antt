-- ===== src/Rollback/Samples.antt =====
-- The theorems on rollback plans at a plan of two tasks.
use planner_critic_engine.Prelude.{
  String, true, false, not, ◌||◌, List, [], ◌∷◌, ◌++◌, ◌≡◌, ◌⊎◌, refl, map, reverse, filter, all,
  contains, nodup, is_empty, string_eq, ok, err, key_error, str, repr, sorted,
}
use planner_critic_engine.Schema.Plan.{PlanVersion, is_hard, hard}
use planner_critic_engine.Schema.Validate.{hard_edges, model_validate}
use planner_critic_engine.Types.{Finding}
use planner_critic_engine.Gates.DepCycles.{kahn}
use planner_critic_engine.Gates.Positions.{IsOrderedFrom, ids}
use planner_critic_engine.Loop.Reorder.{predecessors}
use planner_critic_engine.Rollback.{
  Registry, action_inversion_registry, rollback_dag_valid, topological_order, forward_order,
  order_loop, rollback_id, twin, skipped, invert_task, invert_all, trace_finding, generated,
  executed, full_plan, partial_plan, build_rollback, build_partial_rollback,
}
use planner_critic_engine.Rollback.Twins.{ends, turned_ends}
use planner_critic_engine.Rollback.Reversed.{build_rollback-reversed}
use planner_critic_engine.Rollback.Partial.{build_partial_rollback-before}
use planner_critic_engine.Loop.Samples.{task, swapped}

abbrev registry : Registry
registry = action_inversion_registry []

abbrev undone : PlanVersion
undone = full_plan swapped (twin (task "b") "sys.noop" ∷ twin (task "a") "sys.noop" ∷ [])

abbrev trace : List Finding
trace =
    trace_finding swapped "b" skipped ∷ trace_finding swapped "a" skipped ∷ generated swapped ∷ []

-- What a synthesis computes with.
unfoldable synthesis : Unit {0}
unfolding kahn sorted str repr model_validate action_inversion_registry rollback_dag_valid
    order_loop topological_order forward_order invert_task invert_all build_rollback
    build_partial_rollback
synthesis = tt

undone_made : build_rollback registry swapped ≡ ok (undone, trace)
unfolding synthesis
undone_made = refl

build_rollback-reversed_example :
    (model_validate undone ≡ true)
    × (all (λ t. contains (ids undone.tasks) (rollback_id t.id)) swapped.tasks ≡ true)
    × (map ends undone.dependencies
        ≡ map turned_ends (filter (λ d. is_hard d.kind) swapped.dependencies))
    × (order : List String) × (ids undone.tasks ≡ map rollback_id (reverse order))
    × (nodup order ≡ true)
    × IsOrderedFrom (predecessors (hard_edges swapped)) [] order
build_rollback-reversed_example = build_rollback-reversed registry swapped undone trace undone_made

abbrev half_undone : PlanVersion
half_undone = partial_plan swapped ("a" ∷ []) (twin (task "a") "sys.noop" ∷ [])

abbrev half_trace : List Finding
half_trace = trace_finding swapped "a" skipped ∷ executed swapped "b" ∷ []

half_undone_made : build_partial_rollback registry swapped "b" ≡ ok (half_undone, half_trace)
unfolding synthesis
half_undone_made = refl

build_partial_rollback-before_example :
    (model_validate half_undone ≡ true)
    × (done rest : List String) × (ids half_undone.tasks ≡ map rollback_id (reverse done))
    × (nodup done ≡ true)
    × (contains done "b" ≡ false)
    × IsOrderedFrom (predecessors (hard_edges swapped)) [] done
    × (all
          (λ t.
            contains (done ++ rest) t.id || not (is_empty (predecessors (hard_edges swapped) t.id)))
          swapped.tasks
        ≡ true)
    × (rest ≡ [] ⊎ (later : List String) × (rest ≡ "b" ∷ later))
build_partial_rollback-before_example =
    build_partial_rollback-before registry swapped half_undone "b" half_trace half_undone_made

-- A dependency on an unknown task raises.
abbrev dangling : PlanVersion
dangling = record swapped {
  dependencies = record { from_task = "a"; to_task = "z"; kind = hard; reason = "" } ∷ [];
}

dangling_raises : build_rollback registry dangling ≡ err key_error
unfolding synthesis
dangling_raises = refl
