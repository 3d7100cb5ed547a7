-- ===== src/Gates/Preconditions.antt =====
-- gates/preconditions.py: every precondition refers to a fact that an earlier task establishes.
pub mod Grounding
use planner_critic_engine.Prelude.{
  String, Bool, true, ◌||◌, Option, none, some, List, [], ◌∷◌, ◌++◌, Result, ok, ◌>>=◌, collect,
  or_key_error, text, repr, codes, starts_with, ◌==◌, string_eq, Dict, dict_get, dict_set, contains,
  concat_map, if◌then◌else◌,
}
use planner_critic_engine.Schema.Plan.{PlanVersion, Task, Precondition, VerificationStep}
use planner_critic_engine.Types.{Finding, blocker}
use planner_critic_engine.Gates.Base.{gate_id, gate_finding}

abbrev pub verified_facts : Option VerificationStep → List String
verified_facts none = []
verified_facts (some v) = text ("verified:" ∷ v.what ∷ []) ∷ v.what ∷ []

-- The non-empty texts among an optional one.
abbrev pub truthy : Option String → List String
truthy none = []
truthy (some s) = if s == "" then [] else s ∷ []

abbrev pub declared_facts : Precondition → List String
declared_facts p = truthy (some p.fact) ++ truthy p.established_by

-- `_task_facts`
abbrev pub task_facts : Task → List String
task_facts t =
    t.id
    ∷ text ("env:" ∷ t.target ∷ [])
    ∷ (verified_facts t.verification ++ concat_map declared_facts t.preconditions)

-- The first loop: for each task the facts of the tasks before it.
abbrev pub facts_before :
    Dict String (List String) → List String → List Task → Dict String (List String)
facts_before m run [] = m
facts_before m run (t ∷ ts) = facts_before (dict_set m t.id run) (run ++ task_facts t) ts

-- The names of the environment, which need no task.
unfoldable pub names_environment : String → Bool
unfolding starts_with
names_environment g =
    starts_with (codes g) (codes "env:")
    || g == "env"
    || contains ("environment" ∷ "system" ∷ "infra" ∷ []) g

unfoldable pub grounded : List String → Precondition → Bool
unfolding names_environment
grounded available p = elim p.probe [
  | some probe ↦ true
  | none ↦ elim p.established_by [
    | none ↦ Bool.false
    | some g ↦ contains available g || names_environment g
  ]
]

abbrev pub precondition_finding : PlanVersion → Task → Precondition → Finding
precondition_finding plan t p =
    gate_finding plan
      (gate_id "preconditions_referenced" plan (text (":" ∷ t.id ∷ ":" ∷ p.fact ∷ []))) (some t.id)
      blocker "unverified_precondition"
      (text (
        "precondition "
        ∷ repr p.fact
        ∷ " on task "
        ∷ repr t.id
        ∷ " references no established fact from an earlier task"
        ∷ []))

unfoldable pub check_task : PlanVersion → Dict String (List String) → Task → Result (List Finding)
unfolding grounded
check_task plan before t = do
  available ← or_key_error (dict_get before t.id)
  ok (
      concat_map (λ p. if grounded available p then [] else precondition_finding plan t p ∷ [])
        t.preconditions)

unfoldable pub preconditions_referenced : PlanVersion → Result (List Finding)
unfolding check_task
preconditions_referenced plan = collect (check_task plan (facts_before [] [] plan.tasks)) plan.tasks
