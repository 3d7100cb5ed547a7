-- ===== src/Domains/Flags.antt =====
-- The shape that most gates of the packs share: a finding for each task with an action of a kind, where
-- the plan lacks what the kind needs.
use planner_critic_engine.Prelude.{
  String, Bool, true, not, ◌&&◌, some, List, [], ◌∷◌, text, any, contains, string_eq, if◌then◌else◌,
  ◌≡◌, refl, arith,
}
use planner_critic_engine.Schema.Plan.{PlanVersion, Task}
use planner_critic_engine.Types.{Finding, blocker}
use planner_critic_engine.Gates.Base.{gate_id, gate_finding}
use planner_critic_engine.Loop.Regression.{is_gate_blocker}

-- `task.action in actions`
abbrev pub acts : List String → Task → Bool
acts actions t = contains actions t.action

-- `any(t.action in actions for t in plan.tasks)`
abbrev pub has_action : List String → PlanVersion → Bool
has_action actions plan = any (acts actions) plan.tasks

-- A blocker on a task, `f"{name}:{plan.id}:{plan.version}:{task.id}{suffix}"`.
abbrev pub task_finding : PlanVersion → String → Task → String → String → String → Finding
task_finding plan name t suffix code message =
    gate_finding plan (gate_id name plan (text (":" ∷ t.id ∷ suffix ∷ []))) (some t.id) blocker code
      message

-- `for task in plan.tasks: if trigger(task) and not guarded: findings.append(…)`
unfoldable pub flag : (Task → Bool) → Bool → (Task → Finding) → List Task → List Finding
flag trigger guarded make [] = []
flag trigger guarded make (t ∷ ts) =
    let rest = flag trigger guarded make ts in
    if trigger t && not guarded then make t ∷ rest else rest

-- Such a loop reports a blocker exactly if a task triggers it and the guard is missing.
pub flag-blocker :
    (trigger : Task → Bool) (guarded : Bool) (make : Task → Finding) (ts : List Task)
    → ((t : Task) → is_gate_blocker (make t) ≡ true)
    → any is_gate_blocker (flag trigger guarded make ts) ≡ (any trigger ts && not guarded)
unfolding flag
flag-blocker trigger guarded make [] h = refl
flag-blocker trigger guarded make (t ∷ ts) h =
    ground (arith, h t, flag-blocker trigger guarded make ts h)

-- The same with two guards, each with its finding.
unfoldable pub flag_both :
    (Task → Bool) → Bool → (Task → Finding) → Bool → (Task → Finding) → List Task → List Finding
flag_both trigger first make second make' [] = []
flag_both trigger first make second make' (t ∷ ts) =
    let rest = flag_both trigger first make second make' ts in
    let with_second = if second then rest else make' t ∷ rest in
    if not (trigger t) then rest else if first then with_second else make t ∷ with_second

-- It reports a blocker exactly if a task triggers it and one of the guards is missing.
pub flag_both-blocker :
    (trigger : Task → Bool) (first second : Bool) (make make' : Task → Finding) (ts : List Task)
    → ((t : Task) → is_gate_blocker (make t) ≡ true)
    → ((t : Task) → is_gate_blocker (make' t) ≡ true)
    → any is_gate_blocker (flag_both trigger first make second make' ts)
      ≡ (any trigger ts && not (first && second))
unfolding flag_both
flag_both-blocker trigger first second make make' [] h k = refl
flag_both-blocker trigger first second make make' (t ∷ ts) h k =
    ground (arith, h t, k t, flag_both-blocker trigger first second make make' ts h k)
