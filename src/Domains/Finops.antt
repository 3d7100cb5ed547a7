-- ===== src/Domains/Finops.antt =====
-- domains/finops/gates.py. `float` of a text is a parameter, which gives a natural amount or raises; the
-- text of a rounded amount is `str` of it.
use planner_critic_engine.Prelude.{
  ℕ, ◌+◌, String, Bool, true, false, not, ◌&&◌, Option, none, some, List, [], ◌∷◌, Result, ok, text,
  repr, str, str_bool, any, ◌==◌, string_eq, nat_eq, filter, length, leb, ltb, &&-eq-true,
  if◌then◌else◌, ◌≡◌, refl, sym, ap, ◌∙◌, arith,
}
use planner_critic_engine.Schema.Plan.{PlanVersion, Task}
use planner_critic_engine.Types.{Finding, Severity, blocker, warning}
use planner_critic_engine.Gates.Base.{gate_id, gate_finding}
use planner_critic_engine.Gates.Clean.{found_eq}
use planner_critic_engine.Loop.Regression.{is_gate_blocker}
use planner_critic_engine.Domains.Flags.{acts, has_action, task_finding, flag, flag-blocker}

abbrev pub delete_actions : List String
delete_actions = "delete" ∷ "terminate" ∷ "release" ∷ []

abbrev pub snapshot_actions : List String
snapshot_actions = "snapshot" ∷ "backup" ∷ []

abbrev pub notify_actions : List String
notify_actions = "notify_owner" ∷ "notify" ∷ []

abbrev pub wait_actions : List String
wait_actions = "wait_grace_period" ∷ "wait" ∷ []

abbrev pub override_actions : List String
override_actions = "executive_override" ∷ "budget_override" ∷ []

abbrev pub has_grace_period : PlanVersion → Bool
has_grace_period plan =
    has_action snapshot_actions plan
    && has_action notify_actions plan
    && has_action wait_actions plan

abbrev pub grace_finding : PlanVersion → Task → Finding
grace_finding plan t =
    task_finding plan "finops_grace_period" t "" "finops_delete_without_grace_period" (
      text (
        "delete step "
        ∷ repr t.id
        ∷ " lacks the full grace period: snapshot="
        ∷ str_bool (has_action snapshot_actions plan)
        ∷ ", notify="
        ∷ str_bool (has_action notify_actions plan)
        ∷ ", wait="
        ∷ str_bool (has_action wait_actions plan)
        ∷ []))

-- `GracePeriodGate.run`
unfoldable pub grace_period_gate : PlanVersion → Result (List Finding)
unfolding flag
grace_period_gate plan =
    ok (flag (acts delete_actions) (has_grace_period plan) (grace_finding plan) plan.tasks)

abbrev pub scale_up_actions : List String
scale_up_actions = "scale_up" ∷ "scale_out" ∷ "provision" ∷ "add_capacity" ∷ []

-- A finding on the whole plan.
abbrev pub budget_finding : PlanVersion → Severity → String → Finding
budget_finding plan severity message =
    gate_finding plan (gate_id "finops_budget_boundary" plan "") none severity
      "finops_budget_boundary_breached" message

one_of_three :
    (a b c : Bool) (w k : Finding)
    → is_gate_blocker w ≡ false
    → is_gate_blocker k ≡ true
    → (b ≡ true → c ≡ false)
    → any is_gate_blocker (if a then [] else if b then w ∷ [] else if c then k ∷ [] else [])
      ≡ (not a && c)
one_of_three true b c w k h g apart = refl
one_of_three false true c w k h g apart = ground (arith, apart refl)
one_of_three false false true w k h g apart = ground arith
one_of_three false false false w k h g apart = refl

module _ (to_float : String → Option ℕ) where
  -- `float(task.target or 0)`; a text that is no number adds nothing.
  abbrev pub cost : Task → ℕ
  cost t = if t.target == "" then 0 else elim (to_float t.target) [ none ↦ 0 | some n ↦ n ]

  abbrev pub total_cost : List Task → ℕ
  total_cost [] = 0
  total_cost (t ∷ ts) =
      let rest = total_cost ts in if acts scale_up_actions t then cost t + rest else rest

  abbrev pub uncosted_finding : PlanVersion → Finding
  uncosted_finding plan =
      let scale_ups = length (filter (acts scale_up_actions) plan.tasks) in
      budget_finding plan warning
        (text (str scale_ups ∷ " scale-up action(s) without cost data or executive override" ∷ []))

  abbrev pub cap_finding : ℕ → PlanVersion → Finding
  cap_finding budget_cap plan = budget_finding plan blocker (
      text (
        "scale-up spend "
        ∷ str (total_cost plan.tasks)
        ∷ " exceeds localized cap "
        ∷ str budget_cap
        ∷ " without executive override"
        ∷ []))

  -- `scale_up_tasks > 0 and spend <= 0`
  abbrev pub lacks_costs : PlanVersion → Bool
  lacks_costs plan =
      ltb 0 (length (filter (acts scale_up_actions) plan.tasks)) && leb (total_cost plan.tasks) 0

  -- `BudgetBoundaryGate(budget_cap).run`
  unfoldable pub budget_boundary_gate : ℕ → PlanVersion → Result (List Finding)
  budget_boundary_gate budget_cap plan = ok (
      if has_action override_actions plan
      then []
      else if lacks_costs plan
      then uncosted_finding plan ∷ []
      else if ltb budget_cap (total_cost plan.tasks)
      then cap_finding budget_cap plan ∷ []
      else [])

  pub finops_gates-bounds :
      (budget_cap : ℕ) (plan : PlanVersion) (graceless broke : List Finding)
      → grace_period_gate plan ≡ ok graceless
      → budget_boundary_gate budget_cap plan ≡ ok broke
      → (any is_gate_blocker graceless
          ≡ (has_action delete_actions plan && not (has_grace_period plan)))
        × (any is_gate_blocker broke
            ≡ (not (has_action override_actions plan) && ltb budget_cap (total_cost plan.tasks)))
  unfolding grace_period_gate budget_boundary_gate
  finops_gates-bounds budget_cap plan graceless broke grace budget = (
    ap (any is_gate_blocker) (sym (found_eq _ graceless grace))
        ∙ flag-blocker (acts delete_actions) (has_grace_period plan) (grace_finding plan) plan.tasks
            (λ t. refl),
    ap (any is_gate_blocker) (sym (found_eq _ broke budget))
        ∙ one_of_three (has_action override_actions plan) (lacks_costs plan)
            (ltb budget_cap (total_cost plan.tasks)) (uncosted_finding plan)
            (cap_finding budget_cap plan) refl refl
            (λ costless. ground (
              arith,
              &&-eq-true (ltb 0 (length (filter (acts scale_up_actions) plan.tasks)))
                  (leb (total_cost plan.tasks) 0) costless,
            )),
  )
