-- ===== src/Loop/Spend.antt =====
-- The spend counters in one revision: no step but the call of the critic and the start of the revision
-- moves them.
pub mod Calls
pub mod Run
use planner_critic_engine.Prelude.{
  ℕ, zero, suc, ◌+◌, ◌≤◌, String, Bool, true, false, ◌&&◌, not, Option, none, some, List, [], ◌∷◌,
  ◌++◌, ◌≡◌, refl, sym, ◌∙◌, ap, subst, Result, ok, err, arith, ◌==◌, string_eq, nat_eq, bool_eq,
  pair_eq, list_eq, Bool-cases, Option-cases, inl, inr, if◌then◌else◌, ltb, leb,
}
use planner_critic_engine.Schema.Goal.{Goal, RiskTolerance, Budget}
use planner_critic_engine.Schema.Plan.{PlanVersion}
use planner_critic_engine.Schema.Acceptance.{AcceptanceContract, risk_tolerance}
use planner_critic_engine.Types.{Finding, ReasonCode}
use planner_critic_engine.Critique.Mode.{
  CriticMode, has_blocker, is_deterministic_first, should_invoke_llm,
}
use planner_critic_engine.Gates.Base.{Gate}
use planner_critic_engine.Approval.{resolve_threshold}
use planner_critic_engine.RunBudget.{RunBudget}
use planner_critic_engine.Loop.Roles.{
  LoopConfig, LoopResult, Session, Carry, Planner, Critic, Reply, raised, untyped, answer,
}
use planner_critic_engine.Loop.Escalate.{revise_or_raise, escalate}
use planner_critic_engine.Loop.Budget.{
  SpendState, record_revision, record_llm_call, budget_exceeded, check_ceilings,
}
use planner_critic_engine.Loop.Regression.{regression_detected}
use planner_critic_engine.Loop.Convergence.{stalled}
use planner_critic_engine.Loop.Oscillation.{detect_oscillation}
use planner_critic_engine.Loop.Histogram.{compute_family_histogram}
use planner_critic_engine.Loop.Audit.{
  Audit, stop, go_on, audit_phase, call_critic, within_run, check_run, calls_spent,
}
use planner_critic_engine.Loop.GatePhase.{Gated, gate_phase}
use planner_critic_engine.Loop.Judge.{
  Step, done, again, judge, unless_spent, unless_run_spent, progress_tests, after_oscillation,
  advance, unless_cycling, cycling, is_abort, revised, critic_satisfied, process,
}
use planner_critic_engine.Loop.Controller.{
  effective_cap, replanned, blocked_round, judge_audit, audited_round, after_gates, round, rounds,
  first_carry, contract_of, run_with, start, run, with_spend, run_loop,
}

-- The counters of two sessions agree.
abbrev pub SameCounts : SpendState → SpendState → Type 0
SameCounts a b = (a.calls_used ≡ b.calls_used) × (a.revisions_used ≡ b.revisions_used)

pub budget_exceeded-SameCounts :
    (budget : Budget) (s : SpendState) → SameCounts (budget_exceeded budget s).1 s
unfolding budget_exceeded
budget_exceeded-SameCounts budget s = ground arith

pub process-spend : (plan : PlanVersion) (s : Session) → (process plan s).spend ≡ s.spend
process-spend plan s = elim (Option-cases s.ledger) [
  | inl absent ↦ ground (arith, absent)
  | inr (l, present) ↦ ground (arith, present)
]

pub check_run-spend : (now : ℕ) (s : Session) → (check_run now s).1.spend ≡ s.spend
check_run-spend now s = elim (Option-cases s.run_budget) [
  | inl absent ↦ ground (arith, absent)
  | inr (b, present) ↦ ground (arith, present)
]

module _ (goal : Goal) (config : LoopConfig) (planner : Planner) (r : RiskTolerance) (cap : ℕ)
    (clock : ℕ → ℕ → ℕ) where
  advance-spend :
      (revision : ℕ) (c : Carry) (findings : List Finding) (s : Session)
      → (advance goal config planner r cap clock revision c findings s).1.spend ≡ s.spend
  unfolding advance
  advance-spend revision c findings s = elim (Bool-cases (ltb revision cap)) [
    | inr last ↦ rw last refl
    | inl more ↦ rw more (
        revised_spend (record c { prior_plan = some c.plan; prior_findings = findings }) s
          (revise_or_raise planner goal revision c.plan findings))
  ]
    where
      revised_spend :
          (c' : Carry) (s' : Session) (x : Result PlanVersion)
          → (revised goal config planner r cap clock c' s' x).1.spend ≡ s'.spend
      revised_spend c' s' (err e) = refl
      revised_spend c' s' (ok plan) = process-spend plan s'

  unless_cycling-spend :
      (revision : ℕ) (c : Carry) (findings : List Finding) (s : Session) (x : Result Bool)
      → (unless_cycling goal config planner r cap clock revision c findings s x).1.spend ≡ s.spend
  unless_cycling-spend revision c findings s (err e) = refl
  unless_cycling-spend revision c findings s (ok true) = refl
  unless_cycling-spend revision c findings s (ok false) = advance-spend revision c findings s

  progress_tests-spend :
      (revision : ℕ) (c : Carry) (findings : List Finding) (s : Session)
      → (progress_tests goal config planner r cap clock revision c findings s).1.spend ≡ s.spend
  unfolding progress_tests after_oscillation
  progress_tests-spend revision c findings s = elim (Bool-cases (is_abort goal.replan_policy)) [
    | inl h ↦ rw h refl
    | inr h ↦ elim (Bool-cases (regression_detected c.prior_findings findings)) [
      | inl k ↦ rw (h, k) refl
      | inr k ↦ elim (Bool-cases (stalled c.prior_plan c.prior_findings c.plan findings)) [
        | inl l ↦ rw (h, k, l) refl
        | inr l ↦ elim (Bool-cases (detect_oscillation c.sig_history config.oscillation_window)) [
          | inl m ↦ rw (h, k, l, m) refl
          | inr m ↦
              let c' = record c {
                hist_history = c.hist_history ++ compute_family_histogram findings ∷ [];
              } in
              rw (h, k, l, m)
                (unless_cycling-spend revision c' findings s
                  (cycling goal config planner r cap clock c'))
        ]
      ]
    ]
  ]

  unless_run_spent-spend :
      (revision : ℕ) (plan : PlanVersion) (findings : List Finding) (k : Session → Step × Session)
      (x : Option ReasonCode × Session)
      → ((s : Session) → SameCounts (k s).1.spend s.spend)
      → SameCounts
          (unless_run_spent goal config planner r cap clock revision plan findings k x).1.spend
          x.1.spend
  unless_run_spent-spend revision plan findings k (some code, s) hk = (refl, refl)
  unless_run_spent-spend revision plan findings k (none, s) hk = hk s

  pub unless_spent-spend :
      (revision place : ℕ) (plan : PlanVersion) (findings : List Finding)
      (k : Session → Step × Session) (s : Session)
      → ((s : Session) → SameCounts (k s).1.spend s.spend)
      → SameCounts
          (unless_spent goal config planner r cap clock revision place plan findings k s).1.spend
          s.spend
  unfolding unless_spent
  unless_spent-spend revision place plan findings k s hk =
      let same = budget_exceeded-SameCounts goal.constraints.budget s.spend in
      let s' = record s { spend = (budget_exceeded goal.constraints.budget s.spend).1 } in
      elim (Bool-cases (budget_exceeded goal.constraints.budget s.spend).0) [
        | inl h ↦ rw h same
        | inr h ↦
            let later =
              unless_run_spent-spend revision plan findings k (check_run (clock revision place) s')
                hk in
            let checked = check_run-spend (clock revision place) s' in
            rw h (
              later.0 ∙ ap (λ a. a.calls_used) checked ∙ same.0,
              later.1 ∙ ap (λ a. a.revisions_used) checked ∙ same.1,
            )
      ]

  pub judge-spend :
      (revision : ℕ) (c : Carry) (gate_findings findings : List Finding) (s : Session)
      → SameCounts
          (judge goal config planner r cap clock revision c gate_findings findings s).1.spend
          s.spend
  unfolding judge
  judge-spend revision c gate_findings findings s =
      elim (Bool-cases (resolve_threshold findings r).0) [
        | inl met ↦ rw met (refl, refl)
        | inr unmet ↦
            elim (Bool-cases (critic_satisfied findings && not (has_blocker gate_findings))) [
              | inl quiet ↦ rw (unmet, quiet) (refl, refl)
              | inr loud ↦
                  rw (unmet, loud)
                    (unless_spent-spend revision 3 c.plan findings
                      (progress_tests goal config planner r cap clock revision c findings) s
                      (λ s'.
                        let same = progress_tests-spend revision c findings s' in
                        (ap (λ a. a.calls_used) same, ap (λ a. a.revisions_used) same)))
            ]
      ]
