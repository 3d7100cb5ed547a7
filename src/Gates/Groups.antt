-- ===== src/Gates/Groups.antt =====
-- What the gate `parallel_safety` tests: the high-blast tasks of each parallel group.
use planner_critic_engine.Prelude.{
  ◌≤◌, String, Bool, true, false, some, List, [], ◌∷◌, ◌++◌, map, ◌≡◌, refl, sym, ◌∙◌, ap, arith,
  ◌==◌, string_eq, option_eq, Dict, dict_get, dict_push, contains, contains-sorted, contains→All,
  keys-is_some, sorted, string_ord, is_some, suc, filter, length, any, any-append, All, concat_map,
  if◌then◌else◌, Bool-cases, Option-cases, append-nil, append_assoc, inl, inr,
}
use planner_critic_engine.Schema.Plan.{PlanVersion, Task, is_high_blast}
use planner_critic_engine.Types.{Finding}
use planner_critic_engine.Gates.ParallelSafety.{by_group, members, check_group, parallel_safety}
use planner_critic_engine.Gates.Clean.{IsClean, found_eq}
use planner_critic_engine.Loop.Regression.{is_gate_blocker}

dict_get-dict_push :
    (m : Dict String (List Task)) (k j : String) (t : Task)
    → members (dict_push m k t) j ≡ (if k == j then members m j ++ t ∷ [] else members m j)
dict_get-dict_push [] k j t = ground arith
dict_get-dict_push ((i, l) ∷ m) k j t = ground (
  arith,
  dict_get-dict_push m k j t,
  string_eq.beq_iff i k,
  string_eq.beq_iff i j,
  string_eq.beq_iff k j,
)

-- The tasks of a group.
abbrev pub in_group : String → Task → Bool
in_group g t = t.parallel_group == some g

members-by_group :
    (m : Dict String (List Task)) (ts : List Task) (g : String)
    → members (by_group m ts) g ≡ members m g ++ filter (in_group g) ts
members-by_group m [] g = sym (append-nil (members m g))
members-by_group m (t ∷ ts) g = elim (Option-cases t.parallel_group) [
  | inl alone ↦ rw alone (members-by_group m ts g)
  | inr (h, grouped) ↦
      let later = members-by_group (dict_push m h t) ts g in
      let pushed = dict_get-dict_push m h g t in
      elim (Bool-cases (h == g)) [
        | inl same ↦
            simp (grouped, same)
              (later
                ∙ ap (λ l. l ++ filter (in_group g) ts) (rw same at pushed)
                ∙ append_assoc (members m g) (t ∷ []) (filter (in_group g) ts))
        | inr other ↦
            simp (grouped, other)
              (later ∙ ap (λ l. l ++ filter (in_group g) ts) (rw other at pushed))
      ]
]

concat_map-clean :
    {A : Type 0} (f : A → List Finding) (xs : List A)
    → any is_gate_blocker (concat_map f xs) ≡ false
    → All (λ x. any is_gate_blocker (f x) ≡ false) xs
concat_map-clean f [] h = tt
concat_map-clean f (x ∷ xs) h =
    let parts = any-append is_gate_blocker (f x) (concat_map f xs) in
    (ground arith, concat_map-clean f xs (ground arith))

check_group-clean :
    (plan : PlanVersion) (g : String) (l : List String)
    → any is_gate_blocker (check_group plan g l) ≡ false
    → length l ≤ 1
check_group-clean plan g [] h = omega arith
check_group-clean plan g (x ∷ []) h = omega arith
check_group-clean plan g (x ∷ y ∷ l) h = cc

length-map : {A B : Type 0} (f : A → B) (xs : List A) → length (map f xs) ≡ length xs
length-map f [] = refl
length-map f (x ∷ xs) = ap suc (length-map f xs)

-- No parallel group holds two high-blast tasks.
pub parallel_safety-IsClean :
    (plan : PlanVersion) (g : String)
    → IsClean plan parallel_safety
    → length (filter is_high_blast (filter (in_group g) plan.tasks)) ≤ 1
unfolding parallel_safety
parallel_safety-IsClean plan g (found, run, clean) =
    let groups = by_group [] plan.tasks in
    let members_are = members-by_group [] plan.tasks g in
    let quiet = ap (any is_gate_blocker) (found_eq _ found run) ∙ clean in
    elim (Option-cases (dict_get groups g)) [
      | inl absent ↦
          let none_in : members groups g ≡ [] = ground (arith, absent) in
          let empty : [] ≡ filter (in_group g) plan.tasks = sym none_in ∙ members_are in
          rw (← empty) (omega arith)
      | inr (l, present) ↦
          let listed : contains (sorted (map (λ e. e.0) groups)) g ≡ true =
            contains-sorted (map (λ e. e.0) groups) g
            ∙ keys-is_some groups g
            ∙ ap is_some present in
          let few =
            check_group-clean plan g (map (λ t. t.id) (filter is_high_blast (members groups g))) (
              contains→All _ (sorted (map (λ e. e.0) groups)) g (concat_map-clean _ _ quiet)
                listed) in
          let len = length-map (λ t. t.id) (filter is_high_blast (members groups g)) in
          rw (← members_are) (omega (arith, few, len))
    ]
