-- ===== src/Rollback/Partial.antt =====
-- What a partial rollback plan rolls back.
use planner_critic_engine.Prelude.{
  String, Bool, true, false, not, ◌||◌, List, [], ◌∷◌, ◌++◌, map, reverse, ok, >>=-eq-ok, string_eq,
  nat_eq, all, contains, contains-filter, filter, nodup, is_empty, append-nil, ◌==◌, ==→≡, ◌⊎◌, ◌≡◌,
  refl, sym, ap, ◌∙◌, arith, Bool-cases, inl, inr,
}
use planner_critic_engine.Schema.Plan.{PlanVersion}
use planner_critic_engine.Schema.Validate.{hard_edges, model_validate}
use planner_critic_engine.Types.{Finding}
use planner_critic_engine.Gates.Positions.{IsOrderedFrom, ids}
use planner_critic_engine.Loop.Reorder.{predecessors}
use planner_critic_engine.Rollback.{
  Registry, forward_order, rollback_id, invert_all, completed_before, completed_order, partial_plan,
  build_partial_rollback, executed,
}
use planner_critic_engine.Rollback.Counts.{nodup-middle}
use planner_critic_engine.Rollback.Order.{
  topological_order-IsOrderedFrom, topological_order-contains,
}
use planner_critic_engine.Rollback.Twins.{all-of, validated_forward, synthesised}

-- The completed steps are the front of the order, up to the failed step.
completed-front :
    (failed : String) (order : List String)
    → (rest : List String) × (order ≡ completed_before failed order ++ rest)
      × (contains (completed_before failed order) failed ≡ false)
      × (rest ≡ [] ⊎ (later : List String) × (rest ≡ failed ∷ later))
completed-front failed [] = ([], refl, refl, inl refl)
completed-front failed (t ∷ order) = elim (Bool-cases (t == failed)) [
  | inl here ↦
      (t ∷ order, rw here refl, rw here refl, inr (order, ap (λ x. x ∷ order) (==→≡ t failed here)))
  | inr other ↦
      let (rest, split, absent, stops) = completed-front failed order in
      (rest, rw other (ap (λ l. t ∷ l) split), rw other (rw other absent), stops)
]

filter-own :
    (xs ys : List String)
    → ((k : String) → contains ys k ≡ true → contains xs k ≡ true)
    → filter (contains xs) ys ≡ ys
filter-own xs [] h = refl
filter-own xs (y ∷ ys) h =
    let here = h y (ground (arith, string_eq.beq_iff y y)) in
    rw here (ap (λ l. y ∷ l) (filter-own xs ys (λ k m. h k (ground (arith, m)))))

filter-append :
    (q : String → Bool) (xs ys : List String) → filter q (xs ++ ys) ≡ filter q xs ++ filter q ys
filter-append q [] ys = refl
filter-append q (x ∷ xs) ys = ground (arith, filter-append q xs ys)

nothing_twice :
    (xs ys : List String)
    → ((k : String) → contains ys k ≡ true → contains xs k ≡ true)
    → nodup (xs ++ ys) ≡ true
    → ys ≡ []
nothing_twice xs [] h once = refl
nothing_twice xs (y ∷ ys) h once =
    let new = nodup-middle xs ys y once in
    let old = h y (ground (arith, string_eq.beq_iff y y)) in cc

-- Without repetitions, what is in the front of an order is the front.
filter-front :
    (front rest : List String)
    → nodup (filter (contains front) (front ++ rest)) ≡ true
    → filter (contains front) (front ++ rest) ≡ front
filter-front front rest once =
    let split : filter (contains front) (front ++ rest) ≡ front ++ filter (contains front) rest =
      filter-append (contains front) front rest
      ∙ ap (λ l. l ++ filter (contains front) rest) (filter-own front front (λ k m. m)) in
    let empty =
      nothing_twice front (filter (contains front) rest)
        (λ k m. ground (arith, contains-filter (contains front) rest k, m))
        (ap nodup (sym split) ∙ once) in
    split ∙ ap (λ l. front ++ l) empty ∙ append-nil front

pub build_partial_rollback-before :
    (registry : Registry) (plan p : PlanVersion) (failed : String) (trace : List Finding)
    → build_partial_rollback registry plan failed ≡ ok (p, trace)
    → (model_validate p ≡ true)
      × (done rest : List String) × (ids p.tasks ≡ map rollback_id (reverse done))
      × (nodup done ≡ true)
      × (contains done failed ≡ false)
      × IsOrderedFrom (predecessors (hard_edges plan)) [] done
      × (all
            (λ t.
              contains (done ++ rest) t.id || not (is_empty (predecessors (hard_edges plan) t.id)))
            plan.tasks
          ≡ true)
      × (rest ≡ [] ⊎ (later : List String) × (rest ≡ failed ∷ later))
unfolding build_partial_rollback
build_partial_rollback-before registry plan p failed trace run =
    let (order, forward, later) = >>=-eq-ok (forward_order plan) _ run in
    let done = completed_before failed order in
    let (r, made, checked) =
      >>=-eq-ok (invert_all registry plan (reverse (completed_order order failed))) _ later in
    let (_, sorted_run) = validated_forward plan order forward in
    let (valid, same, twins, once) =
      synthesised registry plan p (partial_plan plan done r.0) (completed_order order failed) r.0
        r.1 (r.1 ++ executed plan failed ∷ []) trace made refl checked in
    let (rest, split, absent, stops) = completed-front failed order in
    let all_done : completed_order order failed ≡ done =
      ap (filter (contains done)) split
      ∙ filter-front done rest (ap nodup (ap (filter (contains done)) (sym split)) ∙ once) in
    let done_once : nodup done ≡ true = ap nodup (sym all_done) ∙ once in
    (
      valid,
      done,
      rest,
      twins ∙ ap (λ l. map rollback_id (reverse l)) all_done,
      done_once,
      absent,
      topological_order-IsOrderedFrom plan order sorted_run done rest split done_once,
      all-of
          (λ t.
            contains (done ++ rest) t.id || not (is_empty (predecessors (hard_edges plan) t.id)))
          plan.tasks
          (λ t is_task. elim (Bool-cases (is_empty (predecessors (hard_edges plan) t.id))) [
            | inl first ↦
                let there =
                  ap (λ l. contains l t.id) (sym split)
                  ∙ topological_order-contains plan order sorted_run t.id is_task first in
                rw there refl
            | inr behind ↦ ground (arith, behind)
          ]),
      stops,
    )
