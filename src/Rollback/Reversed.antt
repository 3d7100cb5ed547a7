-- ===== src/Rollback/Reversed.antt =====
-- What a rollback plan rolls back.
use planner_critic_engine.Prelude.{
  String, true, List, [], ◌∷◌, ◌++◌, map, reverse, ok, >>=-eq-ok, string_eq, nat_eq, all, contains,
  filter, nodup, is_empty, append-nil, ◌≡◌, refl, sym, ap, ◌∙◌, Bool-cases, inl, inr,
}
use planner_critic_engine.Schema.Plan.{PlanVersion, is_hard}
use planner_critic_engine.Schema.Validate.{hard_edges, model_validate, dependency_resolves}
use planner_critic_engine.Types.{Finding}
use planner_critic_engine.Gates.Positions.{IsOrderedFrom, ids}
use planner_critic_engine.Loop.Reorder.{predecessors}
use planner_critic_engine.Rollback.{
  Registry, forward_order, rollback_id, invert_all, full_plan, build_rollback, generated,
}
use planner_critic_engine.Rollback.Order.{
  topological_order-IsOrderedFrom, topological_order-contains,
}
use planner_critic_engine.Rollback.Twins.{
  ends, turned_ends, ends_flipped, contains-map, contains-reverse, resolved_twin, all-of,
  valid-resolves, validated_forward, synthesised,
}

-- A rollback plan passes the validation of the model and has a twin of each task of the forward plan. Its
-- tasks are the twins of distinct ids, in the reverse of an order in which each task comes after its
-- prerequisites by hard dependencies, and its dependencies are the hard ones, each turned around.
pub build_rollback-reversed :
    (registry : Registry) (plan p : PlanVersion) (trace : List Finding)
    → build_rollback registry plan ≡ ok (p, trace)
    → (model_validate p ≡ true)
      × (all (λ t. contains (ids p.tasks) (rollback_id t.id)) plan.tasks ≡ true)
      × (map ends p.dependencies ≡ map turned_ends (filter (λ d. is_hard d.kind) plan.dependencies))
      × (order : List String) × (ids p.tasks ≡ map rollback_id (reverse order))
      × (nodup order ≡ true)
      × IsOrderedFrom (predecessors (hard_edges plan)) [] order
unfolding build_rollback
build_rollback-reversed registry plan p trace run =
    let (order, forward, later) = >>=-eq-ok (forward_order plan) _ run in
    let (r, made, checked) = >>=-eq-ok (invert_all registry plan (reverse order)) _ later in
    let (_, sorted_run) = validated_forward plan order forward in
    let q = full_plan plan r.0 in
    let (valid, same, twins, once) =
      synthesised registry plan p q order r.0 r.1 (r.1 ++ generated plan ∷ []) trace made refl
        checked in
    let resolves : all (dependency_resolves (ids p.tasks)) q.dependencies ≡ true =
      ap (all (dependency_resolves (ids p.tasks))) (ap (λ z. z.dependencies) same)
      ∙ valid-resolves p valid in
    (
      valid,
      all-of (λ t. contains (ids p.tasks) (rollback_id t.id)) plan.tasks
          (λ t is_task. elim (Bool-cases (is_empty (predecessors (hard_edges plan) t.id))) [
            | inl first ↦
                ap (λ l. contains l (rollback_id t.id)) twins
                ∙ contains-map (reverse order) t.id (
                    contains-reverse order t.id
                    ∙ topological_order-contains plan order sorted_run t.id is_task first)
            | inr behind ↦
                resolved_twin (ids p.tasks) "reversed for rollback"
                  (filter (λ d. is_hard d.kind) plan.dependencies) t.id resolves behind
          ]),
      ap (λ z. map ends z.dependencies) (sym same)
          ∙ ends_flipped "reversed for rollback" (filter (λ d. is_hard d.kind) plan.dependencies),
      order,
      twins,
      once,
      topological_order-IsOrderedFrom plan order sorted_run order [] (sym (append-nil order)) once,
    )
