-- ===== src/Gates/Clean.antt =====
-- What a plan is on which the gates report no blocker: each gate turned into a statement about the plan.
use planner_critic_engine.Prelude.{
  ℕ, ◌≤◌, String, Bool, true, false, not, ◌&&◌, ◌||◌, Option, none, some, List, [], ◌∷◌, ◌++◌, ◌≡◌,
  refl, sym, ◌∙◌, ap, arith, Result, ok, >>=-eq-ok, collect, or_key_error, ◌==◌, string_eq, nat_eq,
  option_eq, pair_eq, dict_get, contains, contains-unique, contains-sorted, unique, sorted,
  string_ord, pair_ord, is_empty, any, any-append, all, All, contains→All, concat_map, is_some,
  is_none, ltb, if◌then◌else◌, Bool-cases, inl, inr,
}
use planner_critic_engine.Schema.Plan
use planner_critic_engine.Schema.Plan.{PlanVersion, Task, is_high_blast}
use planner_critic_engine.Schema.Validate.{hard_edges}
use planner_critic_engine.Types.{Finding}
use planner_critic_engine.Gates.Base.{Gate, id_to_index}
use planner_critic_engine.Gates.SchemaValid.{schema_valid}
use planner_critic_engine.Gates.Presence.{verification_present, rollback_present}
use planner_critic_engine.Gates.Ordering.{check_edge, ordering_sane}
use planner_critic_engine.Gates.{run_gates}
use planner_critic_engine.Loop.Regression.{is_gate_blocker}

-- A gate that runs and reports no blocker.
abbrev pub IsClean : PlanVersion → Gate → Type 0
IsClean plan g = (found : List Finding) × (g plan ≡ ok found) × (any is_gate_blocker found ≡ false)

pub run_gates-IsClean :
    (gs : List Gate) (plan : PlanVersion) (findings : List Finding)
    → run_gates gs plan ≡ ok findings
    → any is_gate_blocker findings ≡ false
    → All (IsClean plan) gs
unfolding run_gates
run_gates-IsClean [] plan findings h clean = tt
run_gates-IsClean (g ∷ gs) plan findings h clean =
    let (found, here, then_) = >>=-eq-ok (g plan) _ h in
    let (rest, there, both) = >>=-eq-ok (run_gates gs plan) _ then_ in
    let split : any is_gate_blocker (found ++ rest) ≡ false = ground (arith, both) in
    let parts = any-append is_gate_blocker found rest in
    ((found, here, ground arith), run_gates-IsClean gs plan rest there (ground arith))

any-concat_map :
    {A : Type 0} (p : Finding → Bool) (f : A → List Finding) (xs : List A)
    → any p (concat_map f xs) ≡ any (λ x. any p (f x)) xs
any-concat_map p f [] = refl
any-concat_map p f (x ∷ xs) =
    ground (arith, any-append p (f x) (concat_map f xs), any-concat_map p f xs)

-- Each task that may do great harm satisfies a test.
abbrev pub high_blast_all : (Task → Bool) → PlanVersion → Bool
high_blast_all p plan = all (λ t. not (is_high_blast t) || p t) plan.tasks

any-flagged :
    (b : Task → Bool) (mk : Task → Finding) (ts : List Task)
    → ((t : Task) → is_gate_blocker (mk t) ≡ true)
    → any is_gate_blocker (concat_map (λ t. if b t then mk t ∷ [] else []) ts) ≡ any b ts
any-flagged b mk [] h = refl
any-flagged b mk (t ∷ ts) h = ground (arith, h t, any-flagged b mk ts h)

present_all :
    {A : Type 0} (field : Task → Option A) (ts : List Task)
    → any (λ t. is_high_blast t && is_none (field t)) ts ≡ false
    → all (λ t. not (is_high_blast t) || is_some (field t)) ts ≡ true
present_all field [] h = refl
present_all field (t ∷ ts) h = ground (arith, present_all field ts)

pub found_eq : {A : Type 0} (xs ys : A) → ok xs ≡ ok ys → xs ≡ ys
found_eq xs ys h = ground (arith, h)

pub verification_present-IsClean :
    (plan : PlanVersion)
    → IsClean plan verification_present
    → high_blast_all (λ t. is_some t.verification) plan ≡ true
unfolding verification_present
verification_present-IsClean plan (found, run, clean) =
    present_all (λ t. t.verification) plan.tasks
      (sym (any-flagged (λ t. is_high_blast t && is_none t.verification) _ plan.tasks (λ t. refl))
        ∙ ap (any is_gate_blocker) (found_eq _ found run)
        ∙ clean)

pub rollback_present-IsClean :
    (plan : PlanVersion)
    → IsClean plan rollback_present
    → high_blast_all (λ t. is_some t.rollback) plan ≡ true
unfolding rollback_present
rollback_present-IsClean plan (found, run, clean) =
    present_all (λ t. t.rollback) plan.tasks
      (sym (any-flagged (λ t. is_high_blast t && is_none t.rollback) _ plan.tasks (λ t. refl))
        ∙ ap (any is_gate_blocker) (found_eq _ found run)
        ∙ clean)

-- There is a task, and the schema version is the supported one.
pub schema_valid-IsClean :
    (plan : PlanVersion)
    → IsClean plan schema_valid
    → (is_empty plan.tasks ≡ false)
      × ((plan.plan_schema_version == Plan.plan_schema_version) ≡ true)
unfolding schema_valid
schema_valid-IsClean plan (found, run, clean) =
    let made = ap (any is_gate_blocker) (found_eq _ found run) ∙ clean in
    elim (Bool-cases (is_empty plan.tasks)) [
      | inl none_there ↦ cc (rw none_there at made)
      | inr some_there ↦ (some_there, ground (arith, some_there, made))
    ]

collect-clean :
    {A : Type 0} (f : A → Result (List Finding)) (xs : List A) (out : List Finding)
    → collect f xs ≡ ok out
    → any is_gate_blocker out ≡ false
    → All (λ x. (ys : List Finding) × (f x ≡ ok ys) × (any is_gate_blocker ys ≡ false)) xs
collect-clean f [] out h clean = tt
collect-clean f (x ∷ xs) out h clean =
    let (ys, here, then_) = >>=-eq-ok (f x) _ h in
    let (zs, there, both) = >>=-eq-ok (collect f xs) _ then_ in
    let split : any is_gate_blocker (ys ++ zs) ≡ false = ground (arith, both) in
    let parts = any-append is_gate_blocker ys zs in
    ((ys, here, ground arith), collect-clean f xs zs there (ground arith))

key-found : {A : Type 0} (x : Option A) (a : A) → or_key_error x ≡ ok a → x ≡ some a
key-found none a h = cc
key-found (some b) a h = ap some (found_eq b a h)

not_flagged :
    (i j : ℕ) (f : Finding) (found : List Finding)
    → is_gate_blocker f ≡ true
    → ok (if ltb j i then f ∷ [] else []) ≡ ok found
    → any is_gate_blocker found ≡ false
    → i ≤ j
not_flagged i j f found flagged run clean = elim (Bool-cases (ltb j i)) [
  | inr kept ↦ ground (arith, kept)
  | inl late ↦
      let listed : (f ∷ []) ≡ found = found_eq (f ∷ []) found (rw late at run) in
      absurd (ground (arith, listed, flagged, clean))
]

edge-order :
    (plan : PlanVersion) (p s : String) (found : List Finding)
    → check_edge plan (p, s) ≡ ok found
    → any is_gate_blocker found ≡ false
    → (i j : ℕ) × (dict_get (id_to_index plan) p ≡ some i)
      × (dict_get (id_to_index plan) s ≡ some j)
      × (i ≤ j)
unfolding check_edge
edge-order plan p s found run clean =
    let (i, at_p, rest) = >>=-eq-ok (or_key_error (dict_get (id_to_index plan) p)) _ run in
    let (j, at_s, last) = >>=-eq-ok (or_key_error (dict_get (id_to_index plan) s)) _ rest in
    (i, j, key-found _ i at_p, key-found _ j at_s, not_flagged i j _ found refl last clean)

-- A hard prerequisite does not stand behind the task that needs it.
pub ordering_sane-IsClean :
    (plan : PlanVersion) (p s : String)
    → IsClean plan ordering_sane
    → contains (hard_edges plan) (p, s) ≡ true
    → (i j : ℕ) × (dict_get (id_to_index plan) p ≡ some i)
      × (dict_get (id_to_index plan) s ≡ some j)
      × (i ≤ j)
unfolding ordering_sane
ordering_sane-IsClean plan p s (out, run, clean) edge =
    let (found, here, quiet) =
      contains→All _ (sorted (unique (hard_edges plan))) (p, s)
        (collect-clean (check_edge plan) (sorted (unique (hard_edges plan))) out run clean)
        (contains-sorted (unique (hard_edges plan)) (p, s)
          ∙ contains-unique (hard_edges plan) (p, s)
          ∙ edge) in
    edge-order plan p s found here quiet
