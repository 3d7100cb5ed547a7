-- ===== src/Loop/Reorder/Lookup.antt =====
-- Looking the tasks up again by their ids, in any order.
use planner_critic_engine.Prelude.{
  String, true, false, none, some, List, [], ◌∷◌, map, ◌≡◌, refl, sym, ◌∙◌, arith, ok, ◌==◌,
  string_eq, Dict, dict_get, dict_set, dict_get-dict_set, contains, nodup, Bool-cases, inl, inr,
  subst,
}
use mathlib.Core.List.{Perm}
use mathlib.Core.List.Perm
use planner_critic_engine.Schema.Plan.{Task}
use planner_critic_engine.Gates.Base.{tasks_by_id}
use planner_critic_engine.Gates.Positions.{ids}
use planner_critic_engine.Loop.Reorder.{tasks_of}

by_id_other :
    (m : Dict String Task) (ts : List Task) (k : String)
    → contains (ids ts) k ≡ false
    → dict_get (tasks_by_id m ts) k ≡ dict_get m k
by_id_other m [] k h = refl
by_id_other m (t ∷ ts) k h =
    ground (arith, by_id_other (dict_set m t.id t) ts k, dict_get-dict_set m t.id k t)

-- The task with an id, or a given one.
abbrev pick_task : Dict String Task → Task → String → Task
pick_task m d k = elim (dict_get m k) [ none ↦ d | some t ↦ t ]

-- Every id of the list is found.
abbrev Known : Dict String Task → List String → Type 0
Known m xs = (k : String) → contains xs k ≡ true → (t : Task) × (dict_get m k ≡ some t)

pub tasks_of-Known :
    (m : Dict String Task) (d : Task) (xs : List String)
    → Known m xs
    → tasks_of m xs ≡ ok (map (pick_task m d) xs)
tasks_of-Known m d [] h = refl
tasks_of-Known m d (x ∷ xs) h =
    let (t, found) = h x (ground (arith, string_eq.beq_iff x x)) in
    ground (arith, found, tasks_of-Known m d xs (λ k m. h k (ground arith)))

-- Each task of a list without repeated ids is found under its id.
tasks_by_id_self :
    (m : Dict String Task) (ts : List Task) (d : Task)
    → nodup (ids ts) ≡ true
    → (map (pick_task (tasks_by_id m ts) d) (ids ts) ≡ ts)
tasks_by_id_self m [] d once = refl
tasks_by_id_self m (t ∷ ts) d once = ground (
  arith,
  tasks_by_id_self (dict_set m t.id t) ts d,
  by_id_other (dict_set m t.id t) ts t.id,
  dict_get-dict_set m t.id t.id t,
  string_eq.beq_iff t.id t.id,
)

by_id-Known :
    (m : Dict String Task) (ts : List Task) (k : String)
    → contains (ids ts) k ≡ true
    → (t : Task) × (dict_get (tasks_by_id m ts) k ≡ some t)
by_id-Known m [] k h = cc
by_id-Known m (t ∷ ts) k h = elim (Bool-cases (contains (ids ts) k)) [
  | inl later ↦ by_id-Known (dict_set m t.id t) ts k later
  | inr last ↦
      (t, ground (arith, by_id_other (dict_set m t.id t) ts k, dict_get-dict_set m t.id k t))
]

ids-pick :
    (m : Dict String Task) (d : Task) (xs : List String)
    → ((k : String) (t : Task) → dict_get m k ≡ some t → t.id ≡ k)
    → Known m xs
    → ids (map (pick_task m d) xs) ≡ xs
ids-pick m d [] own known = refl
ids-pick m d (x ∷ xs) own known =
    let (t, found) = known x (ground (arith, string_eq.beq_iff x x)) in
    ground (arith, found, own x t found, ids-pick m d xs own (λ k m. known k (ground arith)))

pub by_id-own :
    (m : Dict String Task) (ts : List Task) (k : String) (t : Task)
    → ((j : String) (u : Task) → dict_get m j ≡ some u → u.id ≡ j)
    → dict_get (tasks_by_id m ts) k ≡ some t
    → t.id ≡ k
by_id-own m [] k t own h = own k t h
by_id-own m (u ∷ us) k t own h =
    by_id-own (dict_set m u.id u) us k t
      (λ j v e. elim (Bool-cases (u.id == j)) [
        | inl same ↦ ground (arith, dict_get-dict_set m u.id j u, string_eq.beq_iff u.id j)
        | inr other ↦ own j v (ground (arith, dict_get-dict_set m u.id j u))
      ])
      h

-- The ids of a plan in another order give its tasks in that order.
pub tasks_of-perm :
    (ts : List Task) (xs : List String)
    → nodup (ids ts) ≡ true
    → Perm xs (ids ts)
    → ((k : String) → contains xs k ≡ contains (ids ts) k)
    → (us : List Task) × (tasks_of (tasks_by_id [] ts) xs ≡ ok us) × Perm us ts × (ids us ≡ xs)
tasks_of-perm [] [] once same members = ([], refl, Perm.refl _, refl)
tasks_of-perm [] (x ∷ xs) once same members =
    let found : contains (x ∷ xs) x ≡ true = ground (arith, string_eq.beq_iff x x) in
    let absent = members x in cc
tasks_of-perm (t ∷ ts) xs once same members =
    let m = tasks_by_id [] (t ∷ ts) in
    let known : Known m xs = λ k h. by_id-Known [] (t ∷ ts) k (sym (members k) ∙ h) in
    let own : (k : String) (u : Task) → dict_get m k ≡ some u → u.id ≡ k =
      λ k u e. by_id-own [] (t ∷ ts) k u (λ j v f. cc) e in
    (
      map (pick_task m t) xs,
      tasks_of-Known m t xs known,
      subst (Perm (map (pick_task m t) xs)) (tasks_by_id_self [] (t ∷ ts) t once)
          (Perm.map (pick_task m t) same),
      ids-pick m t xs own known,
    )
