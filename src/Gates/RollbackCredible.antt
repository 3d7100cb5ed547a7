-- ===== src/Gates/RollbackCredible.antt =====
-- gates/rollback_credible.py: a rollback that exists can do its job.
use planner_critic_engine.Prelude.{
  ℕ, suc, String, Bool, false, ◌&&◌, ◌||◌, not, Option, none, some, List, [], ◌∷◌, ◌++◌, map,
  Result, ok, ◌>>=◌, collect, or_key_error, text, repr, str, ◌==◌, nat_eq, string_eq, option_eq,
  Dict, dict_get, dict_push, contains, length, ltb, is_none, is_some, is_empty, any, if◌then◌else◌,
}
use planner_critic_engine.Schema.Plan.{
  PlanVersion, Task, Precondition, Dependency, RollbackStep, is_hard, is_high_blast,
}
use planner_critic_engine.Types.{Finding, blocker, warning}
use planner_critic_engine.Gates.Base.{gate_id, gate_finding, id_to_index, tasks_by_id}

-- `_NON_REVERSIBLE_ACTIONS` of rollback_synth.py
abbrev pub non_reversible_actions : List String
non_reversible_actions = "publish" ∷ "destroy" ∷ "commit" ∷ []

-- `_bare_consumer`
abbrev pub bare_consumer : Task → Bool
bare_consumer t = is_none t.verification && is_none t.rollback

abbrev declares_state : Option (List String) → Bool
declares_state none = false
declares_state (some l) = not (is_empty l)

-- `_has_typed_restoration`
abbrev pub has_typed_restoration : Task → Bool
has_typed_restoration t = elim t.rollback [
  | none ↦ false
  | some rb ↦ declares_state rb.restores_state || is_some rb.restoration_evidence
]

-- `_is_reachable`
abbrev pub is_reachable : Task → Bool
is_reachable t = is_none t.rollback || not (contains non_reversible_actions t.action)

abbrev self_established : Task → Precondition → Bool
self_established t p = p.established_by == some t.id

-- The method `_finding`, whose index tells findings of one task and code apart.
abbrev credible_finding : PlanVersion → String → String → String → ℕ → Finding
credible_finding plan task_id code message index =
    gate_finding plan
      (gate_id "rollback_credible" plan (
        text (
          ":"
          ∷ task_id
          ∷ ":"
          ∷ code
          ∷ (if index == 0 then "" else text (":" ∷ str index ∷ []))
          ∷ [])))
      (some task_id) blocker code message

-- One finding for each precondition that satisfies a test, numbered from an index.
abbrev pub numbered :
    PlanVersion
    → Task
    → (Precondition → Bool)
    → (Precondition → String)
    → ℕ
    → List Precondition
    → List Finding
numbered plan t test message n [] = []
numbered plan t test message n (p ∷ ps) =
    let rest = numbered plan t test message (if test p then suc n else n) ps in
    if test p
    then credible_finding plan t.id "rollback_self_dependent" (message p) n ∷ rest
    else rest

-- `consumers_of`: the hard consumers of each task, where they are tasks of the plan.
abbrev pub consumers_of :
    Dict String ℕ → Dict String (List String) → List Dependency → Dict String (List String)
consumers_of index m [] = m
consumers_of index m (d ∷ ds) =
    consumers_of index
      (if is_hard d.kind && is_some (dict_get index d.to_task)
        then dict_push m d.from_task d.to_task
        else m)
      ds

-- The first loop of `_state_risks`: the bare hard consumers.
abbrev pub post_consumed : String → Dict String Task → List String → List String
post_consumed producer by_id [] = []
post_consumed producer by_id (c ∷ cs) =
    let rest = post_consumed producer by_id cs in
    elim (dict_get by_id c) [
      | none ↦ rest
      | some consumer ↦ if not (c == producer) && bare_consumer consumer then c ∷ rest else rest
    ]

-- The second loop: later bare tasks with a precondition that the producer establishes.
abbrev pub inconsistent :
    Task → ℕ → List String → Dict String Task → List (String × ℕ) → List String
inconsistent producer at seen by_id [] = []
inconsistent producer at seen by_id ((later_id, i) ∷ rest) =
    let more = inconsistent producer at seen by_id rest in
    elim (dict_get by_id later_id) [
      | none ↦ more
      | some later ↦
          if ltb at i
            && not (contains seen later_id)
            && bare_consumer later
            && any (self_established producer) later.preconditions
          then later_id ∷ more
          else more
    ]

abbrev consumers : Option (List String) → List String
consumers none = []
consumers (some l) = l

-- `_state_risks`, as the findings that `run` makes of them. The producer is a task of the plan, so its
-- index is there.
unfoldable pub state_risks : PlanVersion → Task → Result (List Finding)
unfolding repr
state_risks plan producer = if has_typed_restoration producer then ok [] else (do
  at ← or_key_error (dict_get (id_to_index plan) producer.id)
  let by_id = tasks_by_id [] plan.tasks
  let edges = consumers_of (id_to_index plan) [] plan.dependencies
  let seen = post_consumed producer.id by_id (consumers (dict_get edges producer.id))
  ok (
      map
        (λ c.
          credible_finding plan c "rollback_post_consumed"
            (text (
              "task "
              ∷ repr c
              ∷ " hard-depends on this task with neither verification nor rollback; if this task "
              ∷ "rolls back, state "
              ∷ repr c
              ∷ " already consumed is erased with no re-sync"
              ∷ []))
            0)
        seen
      ++ map
          (λ c.
            credible_finding plan c "rollback_inconsistent_state"
              (text (
                "task "
                ∷ repr c
                ∷ " bases a precondition fact on this task yet has neither verification nor "
                ∷ "rollback; restoring pre-write state silently invalidates its basis"
                ∷ []))
              0)
          (inconsistent producer at seen by_id (id_to_index plan))))

-- The advisory warning, or the contradictions of a typed restoration.
unfoldable pub restoration_findings : PlanVersion → Task → RollbackStep → ℕ → List Finding
unfolding repr
restoration_findings plan producer rb n =
    if not (has_typed_restoration producer)
    then gate_finding plan
        (gate_id "rollback_credible" plan
          (text (":" ∷ producer.id ∷ ":" ∷ "rollback_state_undeclared" ∷ [])))
        (some producer.id) warning "rollback_state_undeclared"
        (text (
          "high-risk task "
          ∷ repr producer.id
          ∷ " has rollback but does not declare what state it restores (restores_state) or how "
          ∷ "restoration is verified (restoration_evidence)"
          ∷ []))
      ∷ []
    else numbered plan producer
        (λ p. self_established producer p && contains (consumers rb.restores_state) p.fact)
        (λ p. text (
          "restores_state fact "
          ∷ repr p.fact
          ∷ " is a precondition claimed by the task itself — contradictory declaration"
          ∷ []))
        n producer.preconditions

-- The body of the loop over the tasks.
unfoldable pub check_rollback : PlanVersion → Task → Result (List Finding)
unfolding state_risks restoration_findings
check_rollback plan producer =
    let unreachable =
      if is_reachable producer
      then []
      else credible_finding plan producer.id "rollback_unreachable"
          (text (
            "action "
            ∷ repr producer.action
            ∷ " has no automated inverse; the named rollback cannot execute"
            ∷ []))
          0
        ∷ [] in
    let self_dependent =
      numbered plan producer (self_established producer)
        (λ p.
          text
            ("precondition fact " ∷ repr p.fact ∷ " claims establishment by the task itself" ∷ []))
        0 producer.preconditions in
    if not (is_high_blast producer) then ok [] else elim producer.rollback [
      | none ↦ ok (unreachable ++ self_dependent)
      | some rb ↦ do
        risks ← state_risks plan producer
        ok (
            unreachable
            ++ (self_dependent
                ++ (restoration_findings plan producer rb (length self_dependent) ++ risks)))
    ]

unfoldable pub rollback_credible : PlanVersion → Result (List Finding)
unfolding check_rollback
rollback_credible plan = collect (check_rollback plan) plan.tasks
