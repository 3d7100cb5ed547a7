-- ===== src/Domains/Secops/Order.antt =====
-- What the gates of domains/secops/gates.py say of the order of a plan.
use planner_critic_engine.Prelude.{
  Bool, true, false, not, ◌&&◌, List, [], ◌∷◌, ok, any, string_eq, if◌then◌else◌, ◌≡◌, refl, sym,
  ap, ◌∙◌, arith, Bool-cases, inl, inr,
}
use planner_critic_engine.Schema.Plan.{PlanVersion, Task}
use planner_critic_engine.Types.{Finding}
use planner_critic_engine.Gates.Clean.{found_eq}
use planner_critic_engine.Loop.Regression.{is_gate_blocker}
use planner_critic_engine.Domains.Flags.{acts, has_action, flag-blocker}
use planner_critic_engine.Domains.Secops.{
  drains, isolates, isolations, blast_radius_gate, destructive_actions, preservation_actions,
  preservations, forensic_order_gate, is_broad, hitl_actions, privilege_finding,
  least_privilege_gate,
}

-- The tasks before the first that passes a test, and those after it.
abbrev pub before_first : (Task → Bool) → List Task → List Task
before_first p [] = []
before_first p (t ∷ ts) = let rest = before_first p ts in if p t then [] else t ∷ rest

abbrev pub after_first : (Task → Bool) → List Task → List Task
after_first p [] = []
after_first p (t ∷ ts) = let rest = after_first p ts in if p t then ts else rest

isolations-drained :
    (plan : PlanVersion) (ts : List Task) → any is_gate_blocker (isolations plan true ts) ≡ false
unfolding isolations
isolations-drained plan [] = refl
isolations-drained plan (t ∷ ts) = ground (arith, isolations-drained plan ts)

isolations-first :
    (plan : PlanVersion) (ts : List Task)
    → any is_gate_blocker (isolations plan false ts) ≡ any isolates (before_first drains ts)
unfolding isolations
isolations-first plan [] = refl
isolations-first plan (t ∷ ts) = elim (Bool-cases (drains t)) [
  | inl drain ↦ rw drain (ground (arith, isolations-drained plan ts))
  | inr other ↦ rw other (ground (arith, isolations-first plan ts))
]

-- A preservation step that is not itself destructive.
abbrev pub preserves : Task → Bool
preserves t = not (acts destructive_actions t) && acts preservation_actions t

preservations-late :
    (plan : PlanVersion) (ts : List Task)
    → any is_gate_blocker (preservations plan true ts) ≡ any preserves ts
unfolding preservations
preservations-late plan [] = refl
preservations-late plan (t ∷ ts) = elim (Bool-cases (acts destructive_actions t)) [
  | inl destroys ↦ rw destroys (preservations-late plan ts)
  | inr other ↦ rw other (elim (Bool-cases (acts preservation_actions t)) [
    | inl keeps ↦ rw keeps (ground arith)
    | inr idle ↦ rw idle (preservations-late plan ts)
  ])
]

preservations-first :
    (plan : PlanVersion) (ts : List Task)
    → any is_gate_blocker (preservations plan false ts)
      ≡ any preserves (after_first (acts destructive_actions) ts)
unfolding preservations
preservations-first plan [] = refl
preservations-first plan (t ∷ ts) = elim (Bool-cases (acts destructive_actions t)) [
  | inl destroys ↦ rw destroys (preservations-late plan ts)
  | inr other ↦ rw other (elim (Bool-cases (acts preservation_actions t)) [
    | inl keeps ↦ rw keeps (preservations-first plan ts)
    | inr idle ↦ rw idle (preservations-first plan ts)
  ])
]

-- The three gates report a blocker exactly if: a task isolates before the first drain; a preservation
-- step stands behind the first destructive one; a task takes a broad privilege and no task of the plan
-- is an approval of a human.
pub secops_gates-order :
    (plan : PlanVersion) (isolated ordered privileged : List Finding)
    → blast_radius_gate plan ≡ ok isolated
    → forensic_order_gate plan ≡ ok ordered
    → least_privilege_gate plan ≡ ok privileged
    → (any is_gate_blocker isolated ≡ any isolates (before_first drains plan.tasks))
      × (any is_gate_blocker ordered
          ≡ any preserves (after_first (acts destructive_actions) plan.tasks))
      × (any is_gate_blocker privileged
          ≡ (any is_broad plan.tasks && not (has_action hitl_actions plan)))
unfolding blast_radius_gate forensic_order_gate least_privilege_gate
secops_gates-order plan isolated ordered privileged runs_isolated runs_ordered runs_privileged = (
  ap (any is_gate_blocker) (sym (found_eq _ isolated runs_isolated))
      ∙ isolations-first plan plan.tasks,
  ap (any is_gate_blocker) (sym (found_eq _ ordered runs_ordered))
      ∙ preservations-first plan plan.tasks,
  ap (any is_gate_blocker) (sym (found_eq _ privileged runs_privileged))
      ∙ flag-blocker is_broad (has_action hitl_actions plan) (privilege_finding plan) plan.tasks
          (λ t. refl),
)
