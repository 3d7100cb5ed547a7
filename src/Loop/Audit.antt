-- ===== src/Loop/Audit.antt =====
-- loop/_controller.py, the part of a revision that may spend a call of the critic.
use planner_critic_engine.Prelude.{
  ℕ, Bool, false, Option, none, some, List, [], ◌++◌, leb, if◌then◌else◌,
}
use planner_critic_engine.Schema.Goal.{Goal}
use planner_critic_engine.Schema.Plan.{PlanVersion}
use planner_critic_engine.Types.{Finding, ReasonCode}
use planner_critic_engine.Critique.Mode.{CriticMode, is_deterministic_first, should_invoke_llm}
use planner_critic_engine.Critique.Scope.{scope_between}
use planner_critic_engine.RunBudget
use planner_critic_engine.RunBudget.{RunBudget}
use planner_critic_engine.Loop.Budget.{record_llm_call}
use planner_critic_engine.Loop.Roles.{Critic, Session}

abbrev pub or_nothing : Option (List Finding) → List Finding
or_nothing none = []
or_nothing (some findings) = findings

-- `_safe_audit`: a critic that raises adds nothing.
unfoldable pub safe_audit : Critic → ℕ → PlanVersion → List Finding → List Finding
safe_audit critic revision plan findings = or_nothing (critic.audit revision plan findings)

-- `_safe_audit_diff`: the diff-aware audit where the critic has one.
unfoldable pub safe_audit_diff :
    Critic → ℕ → PlanVersion → List Finding → Option PlanVersion → List Finding
unfolding safe_audit
safe_audit_diff critic revision plan findings prior = elim critic.audit_diff [
  | none ↦ safe_audit critic revision plan findings
  | some audit_diff ↦ or_nothing (audit_diff revision plan findings (scope_between prior plan))
]

-- `run_budget and run_budget.check()`, at a time
abbrev pub check_run : ℕ → Session → Option ReasonCode × Session
check_run now s = elim s.run_budget [
  | none ↦ (none, s)
  | some b ↦ ((RunBudget.check now b).0, record s { run_budget = some (RunBudget.check now b).1 })
]

-- `calls_used >= max_calls`
abbrev pub calls_spent : Option ℕ → ℕ → Bool
calls_spent none used = false
calls_spent (some limit) used = leb limit used

-- The audit ends the run with a reason, or goes on with findings.
pub data Audit : Type 0 where
  stop : ReasonCode → Audit
  go_on : List Finding → Audit

-- The reason of the second reading of the run budget, after a first one that was a hit.
abbrev pub reason_or : Option ReasonCode → ReasonCode
reason_or none = "run_budget_exceeded"
reason_or (some code) = code

module _ (goal : Goal) (critic : Critic) (mode : CriticMode) (clock : ℕ → ℕ → ℕ) where
  -- The call of the critic, counted before it is made.
  unfoldable pub call_critic :
      ℕ → PlanVersion → List Finding → Option PlanVersion → Session → Audit × Session
  unfolding safe_audit safe_audit_diff
  call_critic revision plan gate_findings prior s = (
    go_on (
        gate_findings
        ++ (if is_deterministic_first mode
            then safe_audit_diff critic revision plan gate_findings prior
            else safe_audit critic revision plan gate_findings)),
    record s { spend = record_llm_call 0 s.spend },
  )

  -- The first reading of the run budget; on a hit it is read again for the reason.
  abbrev pub within_run :
      ℕ
      → PlanVersion
      → List Finding
      → Option PlanVersion
      → Option ReasonCode × Session
      → Audit × Session
  within_run revision plan gate_findings prior (none, s) =
      call_critic revision plan gate_findings prior s
  within_run revision plan gate_findings prior (some code, s) =
      (stop (reason_or (check_run (clock revision 2) s).0), (check_run (clock revision 2) s).1)

  unfoldable pub audit_phase :
      ℕ → PlanVersion → List Finding → Option PlanVersion → Session → Audit × Session
  unfolding call_critic
  audit_phase revision plan gate_findings prior s =
      if should_invoke_llm mode gate_findings
      then if calls_spent goal.constraints.budget.max_calls s.spend.calls_used
        then (stop "budget_exceeded", s)
        else within_run revision plan gate_findings prior (check_run (clock revision 1) s)
      else (go_on gate_findings, s)
