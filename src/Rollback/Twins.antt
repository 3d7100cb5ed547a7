-- ===== src/Rollback/Twins.antt =====
-- The twins of the tasks in a rollback plan, and what its validation tells of them.
use planner_critic_engine.Prelude.{
  String, Bool, true, false, ◌||◌, Option, none, some, List, [], ◌∷◌, ◌++◌, map, reverse, ok,
  err_ok, value_error, validation_error, >>=-eq-ok, or_key_error, dict_get, string_eq, nat_eq, all,
  contains, contains-append, nodup, nodup_of_length, is_empty, ◌==◌, ==→≡, ◌≡◌, refl, sym, ap, ◌∙◌,
  arith, Bool-cases, inl, inr,
}
use mathlib.Core.List.{reverse-cons}
use planner_critic_engine.Schema.Plan.{PlanVersion, Task, Dependency}
use planner_critic_engine.Schema.Validate.{model_validate, validate_graph, dependency_resolves}
use planner_critic_engine.Types.{Finding}
use planner_critic_engine.Gates.Base.{tasks_by_id}
use planner_critic_engine.Gates.Clean.{found_eq}
use planner_critic_engine.Gates.Positions.{ids}
use planner_critic_engine.Loop.Reorder.{predecessors}
use planner_critic_engine.Loop.Reorder.Lookup.{by_id-own}
use planner_critic_engine.Rollback.{
  Registry, Reversibility, deterministic, snapshot_restore, non_reversible, rollback_dag_valid,
  topological_order, forward_order, rollback_id, inverted, invert_task, invert_all, flip, validated,
}
use planner_critic_engine.Rollback.Counts.{key_found}

abbrev pub ends : Dependency → String × String
ends d = (d.from_task, d.to_task)

-- The ends of the turned dependency between the twins.
abbrev pub turned_ends : Dependency → String × String
turned_ends d = (rollback_id d.to_task, rollback_id d.from_task)

inverted_id : (o : Option Reversibility) (t : Task) → (inverted o t).0.id ≡ rollback_id t.id
inverted_id none t = refl
inverted_id (some non_reversible) t = refl
inverted_id (some deterministic) t = refl
inverted_id (some snapshot_restore) t = refl

pub ends_flipped :
    (reason : String) (ds : List Dependency) → map ends (map (flip reason) ds) ≡ map turned_ends ds
ends_flipped reason [] = refl
ends_flipped reason (d ∷ ds) = ap (λ z. turned_ends d ∷ z) (ends_flipped reason ds)

invert_all-ids :
    (registry : Registry) (plan : PlanVersion) (l : List String) (ts : List Task)
    (trace : List Finding)
    → invert_all registry plan l ≡ ok (ts, trace)
    → ids ts ≡ map rollback_id l
unfolding invert_all invert_task
invert_all-ids registry plan [] ts trace run =
    ap (λ p. ids p.0) (sym (found_eq ([], []) (ts, trace) run))
invert_all-ids registry plan (tid ∷ l) ts trace run =
    let (t, found, later) =
      >>=-eq-ok (or_key_error (dict_get (tasks_by_id [] plan.tasks) tid)) _ run in
    let (rest, below, made) = >>=-eq-ok (invert_all registry plan l) _ later in
    let own : t.id ≡ tid = by_id-own [] plan.tasks tid t (λ j u e. cc) (key_found _ t found) in
    ap (λ p. ids p.0) (sym (found_eq _ (ts, trace) made))
    ∙ ap (λ i. i ∷ ids rest.0) (inverted_id (dict_get registry t.action) t ∙ ap rollback_id own)
    ∙ ap (λ z. rollback_id tid ∷ z) (invert_all-ids registry plan l rest.0 rest.1 below)

validated-ok :
    (p : PlanVersion) (trace : List Finding) (q : PlanVersion) (found : List Finding)
    → validated p trace ≡ ok (q, found)
    → (model_validate p ≡ true) × (p ≡ q) × (trace ≡ found)
unfolding validated
validated-ok p trace q found h = elim (Bool-cases (model_validate p)) [
  | inl good ↦
      let same = found_eq (p, trace) (q, found) (rw good at h) in
      (good, ap (λ z. z.0) same, ap (λ z. z.1) same)
  | inr bad ↦ err_ok validation_error (q, found) (rw bad at h)
]

-- What the validation tells of a plan.
valid-nodup : (p : PlanVersion) → model_validate p ≡ true → nodup (ids p.tasks) ≡ true
unfolding model_validate validate_graph
valid-nodup p h = nodup_of_length (ids p.tasks) (==→≡ _ _ (ground (arith, h)))

pub valid-resolves :
    (p : PlanVersion)
    → model_validate p ≡ true
    → all (dependency_resolves (ids p.tasks)) p.dependencies ≡ true
unfolding model_validate validate_graph
valid-resolves p h = ground (arith, h)

pub contains-reverse : (l : List String) (k : String) → contains (reverse l) k ≡ contains l k
contains-reverse [] k = refl
contains-reverse (x ∷ l) k =
    ap (λ z. contains z k) (reverse-cons x l)
    ∙ ground (arith, contains-append (reverse l) (x ∷ []) k, contains-reverse l k)

nodup-snoc :
    (l : List String) (x : String)
    → nodup (l ++ x ∷ []) ≡ true
    → (nodup l ≡ true) × (contains l x ≡ false)
nodup-snoc [] x h = (refl, refl)
nodup-snoc (y ∷ l) x h =
    let (once, new) = nodup-snoc l x (ground (arith, h)) in
    (
      ground (arith, h, once, contains-append l (x ∷ []) y),
      ground (
        arith,
        h,
        new,
        contains-append l (x ∷ []) y,
        string_eq.beq_iff y x,
        string_eq.beq_iff x y,
      ),
    )

nodup-reverse : (l : List String) → nodup (reverse l) ≡ true → nodup l ≡ true
nodup-reverse [] h = refl
nodup-reverse (x ∷ l) h =
    let (once, new) = nodup-snoc (reverse l) x (ap nodup (sym (reverse-cons x l)) ∙ h) in
    ground (arith, nodup-reverse l once, contains-reverse l x, new)

pub contains-map :
    (l : List String) (k : String)
    → contains l k ≡ true
    → contains (map rollback_id l) (rollback_id k) ≡ true
contains-map [] k h = cc
contains-map (x ∷ l) k h = elim (Bool-cases (x == k)) [
  | inl same ↦
      ap (λ i. i == rollback_id k || contains (map rollback_id l) (rollback_id k))
        (ap rollback_id (==→≡ x k same))
      ∙ ground (arith, string_eq.beq_iff (rollback_id k) (rollback_id k))
  | inr other ↦ ground (arith, contains-map l k (rw other at h))
]

nodup-map : (l : List String) → nodup (map rollback_id l) ≡ true → nodup l ≡ true
nodup-map [] h = refl
nodup-map (x ∷ l) h = ground (arith, h, nodup-map l, contains-map l x)

-- A task behind another one is named by a turned dependency.
pub resolved_twin :
    (names : List String) (reason : String) (ds : List Dependency) (k : String)
    → all (dependency_resolves names) (map (flip reason) ds) ≡ true
    → is_empty (predecessors (map ends ds) k) ≡ false
    → contains names (rollback_id k) ≡ true
resolved_twin names reason [] k h behind = cc
resolved_twin names reason (d ∷ ds) k h behind = elim (Bool-cases (d.to_task == k)) [
  | inl here ↦
      ap (λ i. contains names (rollback_id i)) (sym (==→≡ d.to_task k here)) ∙ ground (arith, h)
  | inr other ↦ resolved_twin names reason ds k (ground (arith, h)) (rw other at behind)
]

pub all-of :
    (q : Task → Bool) (ts : List Task)
    → ((t : Task) → contains (ids ts) t.id ≡ true → q t ≡ true)
    → all q ts ≡ true
all-of q [] h = refl
all-of q (t ∷ ts) h = ground (
  arith,
  h t (ground (arith, string_eq.beq_iff t.id t.id)),
  all-of q ts (λ u m. h u (ground (arith, m))),
)

pub validated_forward :
    (plan : PlanVersion) (order : List String)
    → forward_order plan ≡ ok order
    → (rollback_dag_valid plan ≡ ok true) × (topological_order plan ≡ ok order)
unfolding forward_order
validated_forward plan order run =
    let (valid, checked, made) = >>=-eq-ok (rollback_dag_valid plan) _ run in
    elim (Bool-cases valid) [
      | inl dag ↦ (checked ∙ ap ok dag, rw dag at made)
      | inr cyclic ↦ err_ok value_error order (rw cyclic at made)
    ]

-- What a synthesis of some ids of the forward plan is.
pub synthesised :
    (registry : Registry) (plan p q : PlanVersion) (l : List String) (ts : List Task)
    (made trace found : List Finding)
    → invert_all registry plan (reverse l) ≡ ok (ts, made)
    → ids q.tasks ≡ ids ts
    → validated q trace ≡ ok (p, found)
    → (model_validate p ≡ true)
      × (q ≡ p)
      × (ids p.tasks ≡ map rollback_id (reverse l))
      × (nodup l ≡ true)
synthesised registry plan p q l ts made trace found run tasks checked =
    let (good, same, _) = validated-ok q trace p found checked in
    let valid = ap model_validate (sym same) ∙ good in
    let twins : ids p.tasks ≡ map rollback_id (reverse l) =
      ap (λ z. ids z.tasks) (sym same)
      ∙ tasks
      ∙ invert_all-ids registry plan (reverse l) ts made run in
    (
      valid,
      same,
      twins,
      nodup-reverse l (nodup-map (reverse l) (ap nodup (sym twins) ∙ valid-nodup p valid)),
    )
