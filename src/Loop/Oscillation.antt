-- ===== src/Loop/Oscillation.antt =====
-- loop/oscillation.py: plans whose structure comes back. The signature is a text made by `repr` of five
-- sorted lists there; here it is the five lists, which that text determines.
pub mod Repeats
use planner_critic_engine.Prelude.{
  ℕ, ◌-◌, String, Bool, false, not, none, some, List, [], ◌∷◌, ◌++◌, map, Dict, dict_push, Eq, ◌==◌,
  nat_eq, string_eq, bool_eq, pair_eq, list_eq, string_ord, bool_ord, pair_ord, list_ord, contains,
  filter, any, length, drop, is_some, sorted, ltb, if◌then◌else◌,
}
use planner_critic_engine.Schema.Plan.{
  PlanVersion, Task, kind_value, risk_value, branch_kind_value, join_value,
}

abbrev pub Shape : Type 0
Shape = String × (String × (String × (Bool × Bool)))

abbrev pub Signature : Type 0
Signature =
    List String
    × (List (String × (String × String))
        × (List (String × List String)
            × (List Shape × List (String × (String × (List String × String))))))

abbrev pub groups : Dict String (List String) → List Task → Dict String (List String)
groups m [] = m
groups m (t ∷ ts) = groups (elim t.parallel_group [ none ↦ m | some g ↦ dict_push m g t.id ]) ts

abbrev pub task_shape : Task → Shape
task_shape t = (
  t.id,
  (risk_value t.risk_class, (t.blast_radius, (is_some t.verification, is_some t.rollback))),
)

unfoldable pub compute_plan_signature : PlanVersion → Signature
unfolding sorted
compute_plan_signature plan = (
  sorted (map (λ t. t.id) plan.tasks),
  (
    sorted (map (λ d. (d.from_task, (d.to_task, kind_value d.kind))) plan.dependencies),
    (
      sorted (map (λ g. (g.0, sorted g.1)) (groups [] plan.tasks)),
      (
        sorted (map task_shape plan.tasks),
        sorted (
            map (λ b. (b.id, (branch_kind_value b.kind, (sorted b.tasks, join_value b.join))))
              plan.branches),
      ),
    ),
  ),
)

-- `l[-w:]`, which is the whole list for `w = 0`
abbrev pub last_entries {ℓ} : {A : Type ℓ} → ℕ → List A → List A
last_entries w l = if w == 0 then l else drop (length l - w) l

module _ {ℓ} {A : Type ℓ} ⦃e : Eq A⦄ where
  abbrev pub count : A → List A → ℕ
  count a l = length (filter (λ x. x == a) l)

  unfoldable pub detect_oscillation : List A → ℕ → Bool
  detect_oscillation signatures window =
      if ltb (length signatures) window
      then false
      else let recent = last_entries window signatures in any (λ s. ltb 1 (count s recent)) recent

-- The symmetric difference of the two sets of task ids.
unfoldable pub oscillating_task_ids : PlanVersion → PlanVersion → List String
oscillating_task_ids a b =
    let ids_a = map (λ t. t.id) a.tasks in
    let ids_b = map (λ t. t.id) b.tasks in
    filter (λ i. not (contains ids_b i)) ids_a ++ filter (λ i. not (contains ids_a i)) ids_b
