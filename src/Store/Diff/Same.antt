-- ===== src/Store/Diff/Same.antt =====
-- What an empty difference says of two revisions.
use planner_critic_engine.Prelude.{
  String, true, false, not, ◌&&◌, Option, none, some, List, [], ◌∷◌, map, ◌≡◌, refl, sym, ◌∙◌, ap,
  arith, Dict, dict_get, ◌==◌, Eq, string_eq, option_eq, pair_eq, contains, filter, is_none,
  is_some, is_empty, filter-nil, filter_none, keys-is_some, ==→≡, ==_refl,
}
use planner_critic_engine.Schema.Plan.{PlanVersion, Task, task_eq}
use planner_critic_engine.Gates.Base.{tasks_by_id}
use planner_critic_engine.Critique.Scope.{added_task_ids, changed_task_ids}
use planner_critic_engine.Store.Diff.{
  compute_diff, is_empty_diff, new_edges, difference, branch_ids, Edges, edges_by_ends,
}

-- The tasks of a revision under their ids.
abbrev pub tasks_of : PlanVersion → Dict String Task
tasks_of plan = tasks_by_id [] plan.tasks

is_empty→nil {ℓ} : {A : Type ℓ} (l : List A) → is_empty l ≡ true → l ≡ []
is_empty→nil [] h = refl
is_empty→nil (x ∷ l) h = cc

same_at {ℓ} :
    {A : Type ℓ} ⦃e : Eq A⦄ (old new : Option A)
    → (is_some new ≡ true → is_none old ≡ false)
    → (is_some old ≡ true → is_none new ≡ false)
    → (is_some old ≡ true → (is_some new && not (old == new)) ≡ false)
    → old ≡ new
same_at none none added removed changed = refl
same_at none (some y) added removed changed = absurd (ground (arith, added refl))
same_at (some x) none added removed changed = absurd (ground (arith, removed refl))
same_at (some x) (some y) added removed changed =
    ==→≡ (some x) (some y) (ground (arith, changed refl))

-- Two revisions with an empty difference have the same tasks under the same ids.
pub compute_diff-empty :
    (a b : PlanVersion) (k : String)
    → is_empty_diff (compute_diff a b) ≡ true
    → dict_get (tasks_of a) k ≡ dict_get (tasks_of b) k
unfolding compute_diff added_task_ids changed_task_ids
compute_diff-empty a b k quiet =
    let added = is_empty→nil (added_task_ids a b) (ground arith) in
    let removed = is_empty→nil (added_task_ids b a) (ground arith) in
    let changed = is_empty→nil (changed_task_ids a b) (ground arith) in
    same_at (dict_get (tasks_of a) k) (dict_get (tasks_of b) k)
      (λ h. filter-nil _ _ k added (keys-is_some (tasks_of b) k ∙ h))
      (λ h. filter-nil _ _ k removed (keys-is_some (tasks_of a) k ∙ h))
      (λ h. filter-nil _ _ k changed (keys-is_some (tasks_of a) k ∙ h))

stored_none {ℓ κ} :
    {K : Type ℓ} {V : Type κ} ⦃e : Eq K⦄ (m l : Dict K V)
    → ((k : K) → contains (map (λ p. p.0) l) k ≡ true → is_none (dict_get m k) ≡ false)
    → filter (λ p. is_none (dict_get m p.0)) l ≡ []
stored_none m [] h = refl
stored_none ⦃e⦄ m ((k, v) ∷ l) h =
    ground
      (arith, h k (ground (arith, e.beq_iff k k)), stored_none m l (λ j listed. h j (ground arith)))

some-not_none {ℓ} : {A : Type ℓ} (o : Option A) → is_some o ≡ true → is_none o ≡ false
some-not_none none h = cc
some-not_none (some a) h = refl

never_differs {ℓ} : {A : Type ℓ} ⦃e : Eq A⦄ (o : Option A) → (is_some o && not (o == o)) ≡ false
never_differs o = ap (λ t. is_some o && not t) (==_refl o) ∙ ground arith

-- The difference of a revision with itself is empty.
pub compute_diff_self : (a : PlanVersion) → is_empty_diff (compute_diff a a) ≡ true
unfolding compute_diff added_task_ids changed_task_ids
compute_diff_self a =
    let tasks : added_task_ids a a ≡ [] =
      filter_none _ _
        (λ k h. some-not_none (dict_get (tasks_of a) k) (sym (keys-is_some (tasks_of a) k) ∙ h)) in
    let changed : changed_task_ids a a ≡ [] =
      filter_none
        (λ k.
          is_some (dict_get (tasks_of a) k)
          && not (dict_get (tasks_of a) k == dict_get (tasks_of a) k))
        _ (λ k h. never_differs (dict_get (tasks_of a) k)) in
    let edges : Edges = edges_by_ends [] a.dependencies in
    let kept : new_edges edges edges ≡ [] = ap (map (λ e. e.1)) (
      stored_none edges edges
        (λ k h. some-not_none (dict_get edges k) (sym (keys-is_some edges k) ∙ h))) in
    let branches : difference (branch_ids a) (branch_ids a) ≡ [] =
      filter_none (λ x. not (contains (branch_ids a) x)) (branch_ids a) (λ x h. ap not h) in
    rw (tasks, changed, kept, branches) refl
