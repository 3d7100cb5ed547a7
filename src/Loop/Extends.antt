-- ===== src/Loop/Extends.antt =====
-- What the audit of a revision adds to the findings of the gates.
use planner_critic_engine.Prelude.{
  ℕ, Option, none, some, List, [], ◌++◌, ◌≡◌, refl, sym, string_eq, Bool-cases, inl, inr,
  append-nil,
}
use planner_critic_engine.Schema.Goal.{Goal}
use planner_critic_engine.Schema.Plan.{PlanVersion}
use planner_critic_engine.Types.{Finding, ReasonCode}
use planner_critic_engine.Critique.Mode.{CriticMode, should_invoke_llm}
use planner_critic_engine.Loop.Roles.{Session, Critic}
use planner_critic_engine.Loop.Audit.{
  Audit, stop, go_on, audit_phase, call_critic, within_run, check_run, calls_spent,
}

-- The findings that an audit goes on with begin with those of the gates.
abbrev pub Extends : List Finding → Audit → Type 0
Extends gate_findings (stop code) = Unit
Extends gate_findings (go_on findings) = (rest : List Finding) × (findings ≡ gate_findings ++ rest)

module _ (goal : Goal) (critic : Critic) (mode : CriticMode) (clock : ℕ → ℕ → ℕ) where
  within_run-Extends :
      (revision : ℕ) (plan : PlanVersion) (gate_findings : List Finding)
      (prior : Option PlanVersion) (x : Option ReasonCode × Session)
      → Extends gate_findings
          (within_run goal critic mode clock revision plan gate_findings prior x).0
  unfolding call_critic
  within_run-Extends revision plan gate_findings prior (none, s) = (_, refl)
  within_run-Extends revision plan gate_findings prior (some code, s) = tt

  pub audit_phase-Extends :
      (revision : ℕ) (plan : PlanVersion) (gate_findings : List Finding)
      (prior : Option PlanVersion) (s : Session)
      → Extends gate_findings
          (audit_phase goal critic mode clock revision plan gate_findings prior s).0
  unfolding audit_phase
  audit_phase-Extends revision plan gate_findings prior s =
      elim (Bool-cases (should_invoke_llm mode gate_findings)) [
        | inr silent ↦ rw silent ([], sym (append-nil gate_findings))
        | inl asked ↦
            elim (Bool-cases (calls_spent goal.constraints.budget.max_calls s.spend.calls_used)) [
              | inl spent ↦ rw (asked, spent) tt
              | inr left ↦
                  rw (asked, left)
                    (within_run-Extends revision plan gate_findings prior
                      (check_run (clock revision 1) s))
            ]
      ]
