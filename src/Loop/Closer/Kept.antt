-- ===== src/Loop/Closer/Kept.antt =====
-- What the precondition closer keeps of a plan.
use planner_critic_engine.Prelude.{
  String, true, false, not, ◌||◌, Option, none, some, List, [], ◌∷◌, ◌≡◌, refl, sym, ◌∙◌, ap, subst,
  arith, ◌==◌, string_eq, any, filter, contains, nodup, Bool-cases, inl, inr, ◌⊎◌,
}
use planner_critic_engine.Schema.Plan.{PlanVersion, Task}
use planner_critic_engine.Schema.Validate.{task_ids}
use planner_critic_engine.Types.{Finding}
use planner_critic_engine.Gates.Positions.{ids}
use planner_critic_engine.Loop.Closer.{
  PreconditionTemplate, inject, close_with, close_finding, match_template,
  apply_precondition_closer,
}

any-id : (ts : List Task) (k : String) → any (λ t. t.id == k) ts ≡ contains (ids ts) k
any-id [] k = refl
any-id (t ∷ ts) k = ap (λ b. t.id == k || b) (any-id ts k)

filter_absent :
    (k : String) (ts : List Task)
    → contains (ids ts) k ≡ false
    → filter (λ u. not (u.id == k)) ts ≡ ts
filter_absent k [] absent = refl
filter_absent k (t ∷ ts) absent = ground (arith, filter_absent k ts)

-- Without the new task the list is what it was.
filter-inject :
    (new : Task) (target : String) (ts : List Task)
    → contains (ids ts) new.id ≡ false
    → filter (λ u. not (u.id == new.id)) (inject new target ts) ≡ ts
unfolding inject
filter-inject new target [] absent = refl
filter-inject new target (t ∷ ts) absent =
    ground
      (arith, filter-inject new target ts, filter_absent new.id ts, string_eq.beq_iff new.id new.id)

contains-inject :
    (new : Task) (target k : String) (ts : List Task)
    → contains (ids ts) k ≡ false
    → (new.id == k) ≡ false
    → contains (ids (inject new target ts)) k ≡ false
unfolding inject
contains-inject new target k [] absent other = refl
contains-inject new target k (t ∷ ts) absent other = ground (arith, contains-inject new target k ts)

contains-inject_old :
    (new : Task) (target k : String) (ts : List Task)
    → contains (ids ts) k ≡ true
    → contains (ids (inject new target ts)) k ≡ true
unfolding inject
contains-inject_old new target k [] h = cc
contains-inject_old new target k (t ∷ ts) h = ground (arith, contains-inject_old new target k ts)

nodup-inject :
    (new : Task) (target : String) (ts : List Task)
    → contains (ids ts) new.id ≡ false
    → nodup (ids (inject new target ts)) ≡ nodup (ids ts)
unfolding inject
nodup-inject new target [] absent = refl
nodup-inject new target (t ∷ ts) absent = ground (
  arith,
  nodup-inject new target ts,
  contains-inject new target t.id ts,
  contains-inject_old new target t.id ts,
  string_eq.beq_iff new.id t.id,
  string_eq.beq_iff t.id new.id,
)

-- A plan with one task more.
abbrev pub IsPatchOf : PlanVersion → PlanVersion → Type 0
IsPatchOf plan patched =
    (new : Task) × (contains (task_ids plan) new.id ≡ false)
    × (filter (λ u. not (u.id == new.id)) patched.tasks ≡ plan.tasks)
    × (nodup (task_ids patched) ≡ nodup (task_ids plan))
    × (patched ≡ record plan { tasks = patched.tasks })

close_with-IsPatchOf :
    (plan patched : PlanVersion) (f : Finding) (template : Option PreconditionTemplate)
    (target : Option String) (trace : List Finding)
    → close_with plan f template target ≡ some (patched, trace)
    → IsPatchOf plan patched
unfolding close_with
close_with-IsPatchOf plan patched f none target trace h = cc
close_with-IsPatchOf plan patched f (some template) none trace h = cc
close_with-IsPatchOf plan patched f (some template) (some target) trace h =
    elim (Bool-cases (any (λ t. t.id == template.task.id) plan.tasks)) [
      | inl known ↦ ground (arith, known, h)
      | inr fresh ↦
          let new = template.task in
          let absent : contains (ids plan.tasks) new.id ≡ false =
            sym (any-id plan.tasks new.id) ∙ fresh in
          let made : record plan { tasks = inject new target plan.tasks } ≡ patched =
            ground (arith, fresh, h) in
          subst (IsPatchOf plan) made (
            new,
            absent,
            filter-inject new target plan.tasks absent,
            nodup-inject new target plan.tasks absent,
            refl,
          )
    ]

close_finding-IsPatchOf :
    (templates : List PreconditionTemplate) (plan patched : PlanVersion) (f : Finding)
    (trace : List Finding)
    → close_finding templates plan f ≡ some (patched, trace)
    → IsPatchOf plan patched
close_finding-IsPatchOf templates plan patched f trace h =
    elim (Bool-cases (f.reason_code == "unverified_precondition")) [
      | inl asked ↦
          close_with-IsPatchOf plan patched f (match_template f templates) f.task_id trace
            (rw asked at h)
      | inr other ↦ cc (rw other at h)
    ]

first-or :
    {A : Type 0} (x rest : Option A) {a : A}
    → (elim x as (λ y. Option A) [ some b ↦ some b | none ↦ rest ]) ≡ some a
    → (x ≡ some a) ⊎ (rest ≡ some a)
first-or none rest h = inr h
first-or (some b) rest h = inl h

-- Whatever the templates and the findings, the closer only adds a task under a fresh id: without it the
-- patched plan has the tasks of the plan, in their order, the ids are as distinct as before, and no
-- other field has changed.
pub apply_precondition_closer-IsPatchOf :
    (templates : List PreconditionTemplate) (plan patched : PlanVersion)
    (findings trace : List Finding)
    → apply_precondition_closer templates plan findings ≡ some (patched, trace)
    → (new : Task) × (contains (task_ids plan) new.id ≡ false)
      × (filter (λ u. not (u.id == new.id)) patched.tasks ≡ plan.tasks)
      × (nodup (task_ids patched) ≡ nodup (task_ids plan))
      × (patched ≡ record plan { tasks = patched.tasks })
unfolding apply_precondition_closer
apply_precondition_closer-IsPatchOf templates plan patched [] trace h = cc
apply_precondition_closer-IsPatchOf templates plan patched (f ∷ fs) trace h =
    elim (first-or (close_finding templates plan f) (apply_precondition_closer templates plan fs)
      h) [
        | inl found ↦ close_finding-IsPatchOf templates plan patched f trace found
        | inr later ↦ apply_precondition_closer-IsPatchOf templates plan patched fs trace later
      ]
