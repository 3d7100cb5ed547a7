-- ===== src/Loop/Spend/Calls.antt =====
-- One revision counts one revision, and at most one call of the critic.
use planner_critic_engine.Prelude.{
  ℕ, ◌+◌, ◌<◌, false, ◌&&◌, Option, none, some, List, [], ◌∷◌, ◌++◌, ◌≡◌, refl, ◌∙◌, ap, Result, ok,
  err, arith, Bool-cases, inl, inr, ◌⊎◌, ltb,
}
use planner_critic_engine.Schema.Goal.{Goal, RiskTolerance}
use planner_critic_engine.Schema.Plan.{PlanVersion}
use planner_critic_engine.Types.{Finding, ReasonCode}
use planner_critic_engine.Critique.Mode.{
  CriticMode, has_blocker, is_deterministic_first, should_invoke_llm,
}
use planner_critic_engine.Gates.Base.{Gate}
use planner_critic_engine.Loop.Roles.{LoopConfig, Session, Carry, Planner, Critic}
use planner_critic_engine.Loop.Escalate.{revise_or_raise}
use planner_critic_engine.Loop.Budget.{SpendState, record_revision, record_llm_call}
use planner_critic_engine.Loop.Audit.{
  Audit, stop, go_on, audit_phase, call_critic, within_run, check_run, calls_spent,
}
use planner_critic_engine.Loop.GatePhase.{Gated, gate_phase}
use planner_critic_engine.Loop.Oscillation.{compute_plan_signature}
use planner_critic_engine.Loop.Controller.{
  replanned, blocked_round, judge_audit, audited_round, after_gates, round,
}
use planner_critic_engine.Loop.Spend.{SameCounts, check_run-spend, unless_spent-spend, judge-spend}

abbrev pub Below : Option ℕ → ℕ → Type 0
Below none n = Unit
Below (some l) n = n < l

calls_spent-Below : (limit : Option ℕ) (n : ℕ) → calls_spent limit n ≡ false → Below limit n
calls_spent-Below none n h = tt
calls_spent-Below (some l) n h = ground (arith, h)

-- At most one call more, and that only below the limit.
abbrev pub OneCall : Option ℕ → SpendState → SpendState → Type 0
OneCall limit before after =
    (after.revisions_used ≡ before.revisions_used)
    × ((after.calls_used ≡ before.calls_used)
        ⊎ ((after.calls_used ≡ before.calls_used + 1) × Below limit before.calls_used))

module _ (goal : Goal) (critic : Critic) (mode : CriticMode) (clock : ℕ → ℕ → ℕ) where
  within_run-OneCall :
      (revision : ℕ) (plan : PlanVersion) (gate_findings : List Finding)
      (prior : Option PlanVersion) (s : Session) (x : Option ReasonCode × Session)
      → x.1.spend ≡ s.spend
      → Below goal.constraints.budget.max_calls s.spend.calls_used
      → OneCall goal.constraints.budget.max_calls s.spend
          (within_run goal critic mode clock revision plan gate_findings prior x).1.spend
  unfolding call_critic record_llm_call
  within_run-OneCall revision plan gate_findings prior s (none, s') same left =
      (ap (λ a. a.revisions_used) same, inr (ap (λ a. a.calls_used + 1) same, left))
  within_run-OneCall revision plan gate_findings prior s (some code, s') same left =
      let again_ = check_run-spend (clock revision 2) s' ∙ same in
      (ap (λ a. a.revisions_used) again_, inl (ap (λ a. a.calls_used) again_))

  audit_phase-OneCall :
      (revision : ℕ) (plan : PlanVersion) (gate_findings : List Finding)
      (prior : Option PlanVersion) (s : Session)
      → OneCall goal.constraints.budget.max_calls s.spend
          (audit_phase goal critic mode clock revision plan gate_findings prior s).1.spend
  unfolding audit_phase
  audit_phase-OneCall revision plan gate_findings prior s =
      elim (Bool-cases (should_invoke_llm mode gate_findings)) [
        | inr silent ↦ rw silent (refl, inl refl)
        | inl asked ↦
            elim (Bool-cases (calls_spent goal.constraints.budget.max_calls s.spend.calls_used)) [
              | inl spent ↦ rw (asked, spent) (refl, inl refl)
              | inr left ↦
                  rw (asked, left)
                    (within_run-OneCall revision plan gate_findings prior s
                      (check_run (clock revision 1) s) (check_run-spend (clock revision 1) s)
                      (calls_spent-Below goal.constraints.budget.max_calls s.spend.calls_used left))
            ]
      ]

SameCounts-OneCall :
    (limit : Option ℕ) (a b c : SpendState) → OneCall limit a b → SameCounts c b → OneCall limit a c
SameCounts-OneCall limit a b c (revisions, inl same) e = (e.1 ∙ revisions, inl (e.0 ∙ same))
SameCounts-OneCall limit a b c (revisions, inr (one, left)) e =
    (e.1 ∙ revisions, inr (e.0 ∙ one, left))

module _ (goal : Goal) (config : LoopConfig) (planner : Planner) (critic : Critic)
    (extra_gates : List Gate) (r : RiskTolerance) (cap : ℕ) (clock : ℕ → ℕ → ℕ) where
  blocked_round-SameCounts :
      (revision : ℕ) (c : Carry) (gate_findings : List Finding) (s : Session)
      → SameCounts
          (blocked_round goal config planner critic extra_gates r cap clock revision c gate_findings
            s).1.spend
          s.spend
  unfolding blocked_round
  blocked_round-SameCounts revision c gate_findings s =
      unless_spent-spend goal config planner r cap clock revision 0 c.plan gate_findings _ s (λ s'.
        elim (Bool-cases (ltb revision cap)) [
          | inl more ↦
              rw more
                (replanned_same s' (revise_or_raise planner goal revision c.plan gate_findings))
          | inr last ↦ rw last (refl, refl)
        ])
    where
      replanned_same :
          (s' : Session) (x : Result PlanVersion)
          → SameCounts
              (replanned goal config planner critic extra_gates r cap clock c s' x).1.spend
              s'.spend
      replanned_same s' (ok plan) = (refl, refl)
      replanned_same s' (err e) = (refl, refl)

  judge_audit-SameCounts :
      (revision : ℕ) (c : Carry) (gate_findings : List Finding) (x : Audit × Session)
      → SameCounts
          (judge_audit goal config planner critic extra_gates r cap clock revision c gate_findings
            x).1.spend
          x.1.spend
  judge_audit-SameCounts revision c gate_findings (stop code, s) = (refl, refl)
  judge_audit-SameCounts revision c gate_findings (go_on findings, s) =
      judge-spend goal config planner r cap clock revision c gate_findings findings s

  audited_round-OneCall :
      (revision : ℕ) (c : Carry) (gate_findings : List Finding) (s : Session)
      → OneCall goal.constraints.budget.max_calls s.spend
          (audited_round goal config planner critic extra_gates r cap clock revision c gate_findings
            s).1.spend
  unfolding audited_round
  audited_round-OneCall revision c gate_findings s =
      let audit =
        audit_phase goal critic config.mode clock revision c.plan gate_findings c.prior_plan s in
      SameCounts-OneCall goal.constraints.budget.max_calls s.spend audit.1.spend
        (judge_audit goal config planner critic extra_gates r cap clock revision c gate_findings
          audit).1.spend
        (audit_phase-OneCall goal critic config.mode clock revision c.plan gate_findings
          c.prior_plan s)
        (judge_audit-SameCounts revision c gate_findings audit)

  after_gates-OneCall :
      (revision : ℕ) (c : Carry) (s : Session) (x : Result Gated)
      → OneCall goal.constraints.budget.max_calls s.spend
          (after_gates goal config planner critic extra_gates r cap clock revision c s x).1.spend
  after_gates-OneCall revision c s (err e) = (refl, inl refl)
  after_gates-OneCall revision c s (ok g) =
      let c' = record c {
        plan = g.plan;
        sig_history = c.sig_history ++ compute_plan_signature g.plan ∷ [];
      } in
      elim (Bool-cases (is_deterministic_first config.mode && has_blocker g.gate_findings)) [
        | inl blocked ↦ rw blocked (
            SameCounts-OneCall goal.constraints.budget.max_calls s.spend s.spend
              (blocked_round goal config planner critic extra_gates r cap clock revision c'
                g.gate_findings s).1.spend
              (refl, inl refl) (blocked_round-SameCounts revision c' g.gate_findings s))
        | inr clear ↦ rw clear (audited_round-OneCall revision c' g.gate_findings s)
      ]

  -- A revision counts one revision, and at most one call.
  pub round-OneCall :
      (revision : ℕ) (c : Carry) (s : Session)
      → OneCall goal.constraints.budget.max_calls
          (record_revision s.spend)
          (round goal config planner critic extra_gates r cap clock revision c s).1.spend
  unfolding round
  round-OneCall revision c s =
      after_gates-OneCall revision c (record s { spend = record_revision s.spend })
        (gate_phase config extra_gates c.plan)
