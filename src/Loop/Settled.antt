-- ===== src/Loop/Settled.antt =====
-- Every result of the loop is settled: an approval that meets the bound threshold, or an escalation
-- that names what blocks.
use planner_critic_engine.Prelude.{ℕ, String, true, Option, none, some, List, ◌≡◌, refl, ok}
use planner_critic_engine.Schema.Goal.{Goal, RiskTolerance}
use planner_critic_engine.Schema.Plan.{PlanVersion}
use planner_critic_engine.Schema.Acceptance.{AcceptanceContract, risk_tolerance}
use planner_critic_engine.Types.{Finding, ReasonCode, Escalation}
use planner_critic_engine.Gates.Base.{Gate}
use planner_critic_engine.Approval.{resolve_threshold, meets_threshold}
use planner_critic_engine.Loop.Budget.{SpendState}
use planner_critic_engine.Loop.Roles.{
  LoopConfig, LoopResult, Session, Planner, Critic, Status, approved, escalated,
}
use planner_critic_engine.Loop.Escalate.{escalate, blockers_of, first_id}
use planner_critic_engine.Loop.Judge.{approved_result}
use planner_critic_engine.Loop.Controller.{effective_cap, contract_of, run_loop}
use planner_critic_engine.Loop.Outcome.{Holds-ok, approval}
use planner_critic_engine.Loop.Induction.{rounds-Holds, run_loop-Holds}

-- An approval hands out the plan of the result with the acknowledged findings, under the posture; an
-- escalation hands out no plan, and asks about the plan and the first blocker.
abbrev pub Settles : RiskTolerance → Status → LoopResult → Type 0
Settles r approved result =
    (meets_threshold result.findings r ≡ true)
    × (result.approved_plan ≡ some (approval r result.plan result.findings))
    × (result.reason_code ≡ "approved")
    × (result.escalation ≡ none)
Settles r escalated result =
    (result.approved_plan ≡ none)
    × (e : Escalation) × (result.escalation ≡ some e)
    × (e.plan_id ≡ result.plan.id)
    × (e.version ≡ result.plan.version)
    × (e.blocker_finding_id ≡ first_id (blockers_of result.findings))

abbrev pub Settled : RiskTolerance → LoopResult → Type 0
Settled r result = Settles r result.status result

module _ (goal : Goal) (r : RiskTolerance) where
  escalate-Settled :
      (plan : PlanVersion) (findings : List Finding) (reason : ReasonCode) (index : ℕ)
      → Settled r (escalate goal plan findings reason index)
  unfolding escalate
  escalate-Settled plan findings reason index = (refl, _, refl, refl, refl, refl)

  approved_result-Settled :
      (plan : PlanVersion) (findings : List Finding)
      → (resolve_threshold findings r).0 ≡ true
      → Settled r (approved_result plan findings "approved" (approval r plan findings))
  unfolding meets_threshold
  approved_result-Settled plan findings met = (met, refl, refl, refl)

Settles-spend :
    (r : RiskTolerance) (result : LoopResult) (status : Status) (spend : Option SpendState)
    → Settles r status result
    → Settles r status (record result { spend = spend })
Settles-spend r result approved spend h = h
Settles-spend r result escalated spend h = h

-- Whatever the roles, the gates, the clock and the budgets do: a result that `run_loop` returns is
-- settled under the posture of the bound contract. An approved one meets the threshold and hands out
-- exactly the plan of the result with its acknowledged findings, for the reason "approved" and no
-- other; an escalated one hands out no plan and names the first blocker, if there is one.
pub run_loop-Settled :
    (sha256 : String → String) (goal : Goal) (config : LoopConfig) (planner : Planner)
    (critic : Critic) (extra_gates : List Gate) (acceptance : Option AcceptanceContract)
    (clock : ℕ → ℕ → ℕ) (s s' : Session) (result : LoopResult)
    → run_loop sha256 goal config planner critic extra_gates acceptance clock s ≡ (ok result, s')
    → (r : RiskTolerance) × (risk_tolerance (contract_of sha256 goal acceptance) ≡ ok r)
      × Settled r result
run_loop-Settled sha256 goal config planner critic extra_gates acceptance clock s s' result =
    Holds-ok _ (run_loop sha256 goal config planner critic extra_gates acceptance clock s) (
      run_loop-Holds sha256 goal config planner critic extra_gates acceptance clock Settled
        (λ r result spend h. Settles-spend r result result.status spend h)
        (λ r left revision c s.
          rounds-Holds goal config planner critic extra_gates r (effective_cap config goal) clock
            (Settled r) (escalate-Settled goal r)
            (λ plan g rest gated met. approved_result-Settled goal r g.plan _ met) left revision c
            s)
        s)
