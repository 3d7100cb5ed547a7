-- ===== src/Loop/Reorder/Sound.antt =====
-- What a repaired plan is: the same tasks, in an order that the gate `ordering_sane` accepts.
use planner_critic_engine.Prelude.{
  ℕ, ◌<◌, String, true, Option, none, some, List, [], ◌∷◌, map, ◌≡◌, refl, sym, ◌∙◌, ap, subst,
  arith, ok, collect, string_eq, nat_eq, pair_eq, list_eq, dict_get, contains, contains-unique,
  contains-sorted, nodup, nodup_of_length, unique_of_nodup, unique, sorted, string_ord, pair_ord,
  filter, length, all, All, All-contains,
}
use mathlib.Core.List.{Perm}
use planner_critic_engine.Schema.Plan.{PlanVersion, Task, Dependency, is_hard, task_eq}
use planner_critic_engine.Schema.Validate.{
  task_ids, hard_edges, validate_graph, dependency_resolves,
}
use planner_critic_engine.Gates.Base.{id_to_index}
use planner_critic_engine.Gates.Ordering.{check_edge, ordering_sane}
use planner_critic_engine.Gates.Positions.{IsOrderedFrom, index_before}
use planner_critic_engine.Loop.Reorder.{
  predecessors, with_tasks, reordered, topological_order, topological_reorder,
}
use planner_critic_engine.Loop.Reorder.Place.{place-Places}
use planner_critic_engine.Loop.Reorder.Lookup.{tasks_of-perm}

-- Edges whose body of the loop finds nothing.
collect-silent :
    (plan : PlanVersion) (edges : List (String × String))
    → All (λ e. check_edge plan e ≡ ok []) edges
    → collect (check_edge plan) edges ≡ ok []
collect-silent plan [] h = refl
collect-silent plan (e ∷ es) h = ground (arith, h.0, collect-silent plan es h.1)

edge-silent :
    (plan : PlanVersion) (p s : String) (i j : ℕ)
    → dict_get (id_to_index plan) p ≡ some i
    → dict_get (id_to_index plan) s ≡ some j
    → i < j
    → check_edge plan (p, s) ≡ ok []
unfolding check_edge
edge-silent plan p s i j found_p found_s before = ground (arith, found_p, found_s)

contains-predecessors :
    (edges : List (String × String)) (p s : String)
    → contains edges (p, s) ≡ true
    → contains (predecessors edges s) p ≡ true
contains-predecessors [] p s h = cc
contains-predecessors ((a, b) ∷ es) p s h =
    ground (arith, contains-predecessors es p s, string_eq.beq_iff b s, string_eq.beq_iff a p)

-- The check of a plan whose tasks stand in order.
ordered-silent :
    (plan : PlanVersion)
    → nodup (task_ids plan) ≡ true
    → IsOrderedFrom (predecessors (hard_edges plan)) [] (task_ids plan)
    → ((p s : String)
        → contains (hard_edges plan) (p, s) ≡ true
        → contains (task_ids plan) s ≡ true)
    → ordering_sane plan ≡ ok []
unfolding ordering_sane
ordered-silent plan once order ends = collect-silent plan (sorted (unique (hard_edges plan))) (
    All-contains (λ e. check_edge plan e ≡ ok []) (sorted (unique (hard_edges plan)))
      (λ e m.
        let (p, s) = e in
        let edge : contains (hard_edges plan) (p, s) ≡ true =
          sym (contains-unique (hard_edges plan) (p, s))
          ∙ sym (contains-sorted (unique (hard_edges plan)) (p, s))
          ∙ m in
        let (i, j, found_p, found_s, before) =
          index_before (predecessors (hard_edges plan)) [] [] 0 plan.tasks s p order once
            (λ x h. refl) (λ x h. cc) (ends p s edge)
            (contains-predecessors (hard_edges plan) p s edge) in
        edge-silent plan p s i j found_p found_s before))

-- What a repair keeps and gives.
abbrev IsRepairOf : PlanVersion → PlanVersion → Type 0
IsRepairOf plan repaired =
    Perm repaired.tasks plan.tasks
    × (repaired ≡ record plan { tasks = repaired.tasks })
    × IsOrderedFrom (predecessors (hard_edges plan)) [] (task_ids repaired)
    × ((k : String) → contains (task_ids repaired) k ≡ contains (task_ids plan) k)
    × (nodup (task_ids repaired) ≡ true)

with_tasks-eq :
    (plan repaired : PlanVersion) (us : List Task)
    → with_tasks plan us ≡ some repaired
    → record plan { tasks = us } ≡ repaired
with_tasks-eq plan repaired us h = ground (arith, h)

reordered-IsRepairOf :
    (plan repaired : PlanVersion) (order : Option (List String))
    → nodup (task_ids plan) ≡ true
    → topological_order plan ≡ order
    → reordered plan order ≡ ok (some repaired)
    → IsRepairOf plan repaired
reordered-IsRepairOf plan repaired none once placed h = cc
reordered-IsRepairOf plan repaired (some result) once placed h =
    let (xs, split, order, same, members, distinct) =
      place-Places (id_to_index plan) (hard_edges plan) (length (unique (task_ids plan))) []
        (unique (task_ids plan)) result (rw (unique_of_nodup (task_ids plan) once) once) placed in
    let (us, found, tasks_same, own) =
      tasks_of-perm plan.tasks xs once (subst (Perm xs) (unique_of_nodup (task_ids plan) once) same)
        (λ k. members k ∙ contains-unique (task_ids plan) k) in
    let made : with_tasks plan us ≡ some repaired = ground (arith, split, found, h) in
    subst (IsRepairOf plan) (with_tasks-eq plan repaired us made) (
      tasks_same,
      refl,
      subst (IsOrderedFrom (predecessors (hard_edges plan)) []) (sym own) order,
      (λ k. ap (λ l. contains l k) own ∙ members k ∙ contains-unique (task_ids plan) k),
      ap nodup own ∙ distinct,
    )

targets :
    (known : List String) (ds : List Dependency)
    → all (dependency_resolves known) ds ≡ true
    → all {A = String × String}
        (λ e. contains known e.1)
        (map (λ d. (d.from_task, d.to_task)) (filter (λ d. is_hard d.kind) ds))
      ≡ true
targets known [] h = refl
targets known (d ∷ ds) h = ground (arith, targets known ds)

target :
    (known : List String) (es : List (String × String)) (p s : String)
    → all (λ e. contains known e.1) es ≡ true
    → contains es (p, s) ≡ true
    → contains known s ≡ true
target known [] p s h m = cc
target known ((a, b) ∷ es) p s h m = ground (arith, target known es p s, string_eq.beq_iff b s)

validated :
    (plan : PlanVersion)
    → validate_graph plan ≡ true
    → (nodup (task_ids plan) ≡ true)
      × (all (λ e. contains (task_ids plan) e.1) (hard_edges plan) ≡ true)
unfolding validate_graph
validated plan valid = (
  nodup_of_length (task_ids plan)
      (ground (arith, nat_eq.beq_iff (length (unique (task_ids plan))) (length (task_ids plan)))),
  targets (task_ids plan) plan.dependencies (ground arith),
)

-- On a plan that pydantic's validator accepts, a repair keeps the tasks, up to order, and every other
-- field, and the gate `ordering_sane` finds nothing in the repaired plan.
pub topological_reorder-ordering_sane :
    (plan repaired : PlanVersion)
    → validate_graph plan ≡ true
    → topological_reorder plan ≡ ok (some repaired)
    → Perm repaired.tasks plan.tasks
      × (repaired ≡ record plan { tasks = repaired.tasks })
      × (ordering_sane repaired ≡ ok [])
unfolding topological_reorder
topological_reorder-ordering_sane plan repaired valid h =
    let (once, ends) = validated plan valid in
    let run : reordered plan (topological_order plan) ≡ ok (some repaired) =
      ground (arith, ends, h) in
    let (same, kept, order, members, distinct) =
      reordered-IsRepairOf plan repaired (topological_order plan) once refl run in
    let edges : hard_edges repaired ≡ hard_edges plan = ap (λ r. hard_edges r) kept in
    (
      same,
      kept,
      ordered-silent repaired distinct
          (subst (λ es. IsOrderedFrom (predecessors es) [] (task_ids repaired)) (sym edges) order)
          (λ p s m.
            members s
            ∙ target (task_ids plan) (hard_edges plan) p s ends
                (ap (λ es. contains es (p, s)) (sym edges) ∙ m)),
    )
