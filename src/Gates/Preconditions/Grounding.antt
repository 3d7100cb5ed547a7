-- ===== src/Gates/Preconditions/Grounding.antt =====
-- The gate on preconditions, against a description of grounded plans.
use planner_critic_engine.Prelude.{
  String, codes, text, starts_with, is_some, ap, Option, none, contains-append, ◌==◌, option_eq,
  ◌||◌, Bool, true, false, not, ◌&&◌, some, List, [], ◌∷◌, ◌++◌, ◌≡◌, refl, ◌∙◌, arith, ok, collect,
  string_eq, Dict, dict_get, dict_set, dict_get-dict_set, contains, nodup, any, any-append, all,
  concat_map, if◌then◌else◌, Bool-cases, inl, inr,
}
use planner_critic_engine.Schema.Plan.{PlanVersion, Task, Precondition, EnvProbe, VerificationStep}
use planner_critic_engine.Schema.Validate.{task_ids}
use planner_critic_engine.Types.{Finding}
use planner_critic_engine.Gates.Positions.{ids}
use planner_critic_engine.Gates.Preconditions.{
  truthy, declared_facts, verified_facts, names_environment, task_facts, facts_before, grounded,
  precondition_finding, check_task, preconditions_referenced,
}
use planner_critic_engine.Loop.Regression.{is_gate_blocker}

-- Each precondition of each task is grounded in the facts at hand or in those of the tasks before it.
abbrev grounded_from : List String → List Task → Bool
grounded_from facts [] = true
grounded_from facts (t ∷ ts) =
    all (grounded facts) t.preconditions && grounded_from (facts ++ task_facts t) ts

facts_before_other :
    (m : Dict String (List String)) (facts : List String) (ts : List Task) (k : String)
    → contains (ids ts) k ≡ false
    → dict_get (facts_before m facts ts) k ≡ dict_get m k
facts_before_other m facts [] k h = refl
facts_before_other m facts (t ∷ ts) k h = ground (
  arith,
  facts_before_other (dict_set m t.id facts) (facts ++ task_facts t) ts k,
  dict_get-dict_set m t.id k facts,
)

facts_before_here :
    (m : Dict String (List String)) (facts : List String) (t : Task) (ts : List Task)
    → contains (ids ts) t.id ≡ false
    → dict_get (facts_before m facts (t ∷ ts)) t.id ≡ some facts
facts_before_here m facts t ts once = ground (
  arith,
  facts_before_other (dict_set m t.id facts) (facts ++ task_facts t) ts t.id once,
  dict_get-dict_set m t.id t.id facts,
  string_eq.beq_iff t.id t.id,
)

any-ungrounded :
    (facts : List String) (mk : Precondition → Finding) (ps : List Precondition)
    → ((p : Precondition) → is_gate_blocker (mk p) ≡ true)
    → any is_gate_blocker (concat_map (λ p. if grounded facts p then [] else mk p ∷ []) ps)
      ≡ not (all (grounded facts) ps)
any-ungrounded facts mk [] h = refl
any-ungrounded facts mk (p ∷ ps) h = elim (Bool-cases (grounded facts p)) [
  | inl held ↦ rw held (any-ungrounded facts mk ps h)
  | inr bare ↦ rw (bare, h p) refl
]

-- The findings of one task, whose facts are known.
check_task-found :
    (plan : PlanVersion) (before : Dict String (List String)) (t : Task) (facts : List String)
    → dict_get before t.id ≡ some facts
    → (found : List Finding) × (check_task plan before t ≡ ok found)
      × (any is_gate_blocker found ≡ not (all (grounded facts) t.preconditions))
unfolding check_task
check_task-found plan before t facts known = (
  concat_map (λ p. if grounded facts p then [] else precondition_finding plan t p ∷ [])
      t.preconditions,
  rw known refl,
  any-ungrounded facts (precondition_finding plan t) t.preconditions (λ p. refl),
)

collect-found :
    (plan : PlanVersion) (m : Dict String (List String)) (facts : List String) (ts : List Task)
    → nodup (ids ts) ≡ true
    → (found : List Finding) × (collect (check_task plan (facts_before m facts ts)) ts ≡ ok found)
      × (any is_gate_blocker found ≡ not (grounded_from facts ts))
collect-found plan m facts [] once = ([], refl, refl)
collect-found plan m facts (t ∷ ts) once =
    let (here, run, judged) =
      check_task-found plan (facts_before m facts (t ∷ ts)) t facts
        (facts_before_here m facts t ts (ground arith)) in
    let (later, runs, rest) =
      collect-found plan (dict_set m t.id facts) (facts ++ task_facts t) ts (ground arith) in
    (
      here ++ later,
      rw (run, runs) refl,
      any-append is_gate_blocker here later ∙ ground (arith, judged, rest),
    )

-- A name of the environment.
abbrev pub is_environment : String → Bool
is_environment g =
    starts_with (codes g) (codes "env:")
    || contains ("env" ∷ "environment" ∷ "system" ∷ "infra" ∷ []) g

-- A task establishes its id, its target under `env:`, what it verifies, and the facts and the sources of
-- its preconditions where they are not empty.
abbrev pub verifies : Option VerificationStep → String → Bool
verifies none g = false
verifies (some v) g = text ("verified:" ∷ v.what ∷ []) == g || v.what == g

abbrev pub declares : String → Precondition → Bool
declares g p = not (g == "") && (p.fact == g || p.established_by == some g)

abbrev pub establishes : String → Task → Bool
establishes g t =
    t.id == g
    || text ("env:" ∷ t.target ∷ []) == g
    || verifies t.verification g
    || any (declares g) t.preconditions

-- A probe, or a source that the environment or an earlier task gives.
abbrev pub is_grounded : List Task → Precondition → Bool
is_grounded earlier p = is_some p.probe || elim p.established_by [
  | none ↦ false
  | some g ↦ is_environment g || any (establishes g) earlier
]

abbrev pub all_grounded : List Task → List Task → Bool
all_grounded earlier [] = true
all_grounded earlier (t ∷ ts) =
    all (is_grounded earlier) t.preconditions && all_grounded (earlier ++ t ∷ []) ts

contains-truthy :
    (o : Option String) (g : String) → contains (truthy o) g ≡ (not (g == "") && o == some g)
contains-truthy none g = ground arith
contains-truthy (some s) g =
    ground (arith, string_eq.beq_iff s "", string_eq.beq_iff s g, string_eq.beq_iff g "")

contains-declared :
    (ps : List Precondition) (g : String)
    → contains (concat_map declared_facts ps) g ≡ any (declares g) ps
contains-declared [] g = refl
contains-declared (p ∷ ps) g = ground (
  arith,
  contains-append (declared_facts p) (concat_map declared_facts ps) g,
  contains-append (truthy (some p.fact)) (truthy p.established_by) g,
  contains-truthy (some p.fact) g,
  contains-truthy p.established_by g,
  contains-declared ps g,
)

contains-verified :
    (o : Option VerificationStep) (g : String) → contains (verified_facts o) g ≡ verifies o g
contains-verified none g = refl
contains-verified (some v) g = ground arith

contains-task_facts : (t : Task) (g : String) → contains (task_facts t) g ≡ establishes g t
contains-task_facts t g = ground (
  arith,
  contains-append (verified_facts t.verification) (concat_map declared_facts t.preconditions) g,
  contains-verified t.verification g,
  contains-declared t.preconditions g,
)

-- The facts at hand are what the earlier tasks establish.
abbrev AreFactsOf : List Task → List String → Type 0
AreFactsOf earlier facts = (g : String) → contains facts g ≡ any (establishes g) earlier

environment-eq : (g : String) → names_environment g ≡ is_environment g
unfolding names_environment
environment-eq g = ground (arith, string_eq.beq_iff g "env", string_eq.beq_iff "env" g)

grounded-is_grounded :
    (earlier : List Task) (facts : List String) (p : Precondition)
    → AreFactsOf earlier facts
    → grounded facts p ≡ is_grounded earlier p
unfolding grounded
grounded-is_grounded earlier facts p known = by_parts p.probe p.established_by refl refl
  where
    by_parts :
        (probe : Option EnvProbe) (source : Option String)
        → p.probe ≡ probe
        → p.established_by ≡ source
        → grounded facts p ≡ is_grounded earlier p
    by_parts (some x) source probed from = rw probed refl
    by_parts none none bare from = rw (bare, from) refl
    by_parts none (some g) bare from = rw (bare, from, known g, environment-eq g) (ground arith)

all-is_grounded :
    (earlier : List Task) (facts : List String) (ps : List Precondition)
    → AreFactsOf earlier facts
    → all (grounded facts) ps ≡ all (is_grounded earlier) ps
all-is_grounded earlier facts [] known = refl
all-is_grounded earlier facts (p ∷ ps) known =
    rw (grounded-is_grounded earlier facts p known, all-is_grounded earlier facts ps known) refl

from-all_grounded :
    (earlier : List Task) (facts : List String) (ts : List Task)
    → AreFactsOf earlier facts
    → grounded_from facts ts ≡ all_grounded earlier ts
from-all_grounded earlier facts [] known = refl
from-all_grounded earlier facts (t ∷ ts) known =
    rw
      (
        all-is_grounded earlier facts t.preconditions known,
        from-all_grounded (earlier ++ t ∷ []) (facts ++ task_facts t) ts (λ g. ground (
          arith,
          contains-append facts (task_facts t) g,
          contains-task_facts t g,
          known g,
          any-append (establishes g) earlier (t ∷ []),
        )),
      )
      refl

-- On a plan without repeated task ids the gate raises no error, and it reports a blocker exactly if some
-- precondition has no probe, and no source that names the environment or that an earlier task
-- establishes.
pub preconditions_referenced-grounded :
    (plan : PlanVersion)
    → nodup (task_ids plan) ≡ true
    → (found : List Finding) × (preconditions_referenced plan ≡ ok found)
      × (any is_gate_blocker found ≡ not (all_grounded [] plan.tasks))
unfolding preconditions_referenced
preconditions_referenced-grounded plan once =
    let (found, run, judged) = collect-found plan [] [] plan.tasks once in
    (found, run, judged ∙ ap not (from-all_grounded [] [] plan.tasks (λ g. refl)))
