-- ===== src/Loop/Outcome.antt =====
-- A proof rule for the loop: a property of results that every escalation has, and every approval of an
-- audited plan whose findings meet the threshold, holds of whatever the loop returns.
use planner_critic_engine.Prelude.{
  ℕ, Bool, true, false, Option, none, some, List, ◌≡◌, subst, Result, ok, err, arith, ◌==◌,
  string_eq, nat_eq, bool_eq, pair_eq, list_eq, Bool-cases, Option-cases, inl, inr, refl, ltb, ◌++◌,
  [], ◌∷◌,
}
use planner_critic_engine.Schema.Goal.{Goal, RiskTolerance}
use planner_critic_engine.Schema.Plan.{PlanVersion}
use planner_critic_engine.Types.{Finding, ReasonCode, ApprovedPlan}
use planner_critic_engine.Approval.{resolve_threshold, approve}
use planner_critic_engine.Approval.Threshold.{quiet-threshold, threshold-append}
use planner_critic_engine.Loop.Roles.{LoopConfig, LoopResult, Session, Carry, Planner}
use planner_critic_engine.Loop.Escalate.{escalate, revise_or_raise}
use planner_critic_engine.Loop.Budget.{budget_exceeded}
use planner_critic_engine.Loop.Regression.{regression_detected}
use planner_critic_engine.Loop.Convergence.{stalled}
use planner_critic_engine.Loop.Oscillation.{detect_oscillation}
use planner_critic_engine.Loop.Histogram.{compute_family_histogram}
use planner_critic_engine.Loop.Audit.{check_run}
use planner_critic_engine.Loop.Judge.{
  Step, done, again, judge, unless_spent, unless_run_spent, approved_result, approve_with,
  auto_converge, progress_tests, after_oscillation, advance, unless_cycling, cycling, is_abort,
  revised, critic_satisfied, build_auto_converged_plan, converge_finding,
}

abbrev pub Holds : (LoopResult → Type 0) → Result LoopResult → Type 0
Holds P (ok result) = P result
Holds P (err e) = Unit

pub Holds-ok :
    (P : LoopResult → Type 0) (x : Result LoopResult × Session) {result : LoopResult} {s' : Session}
    → Holds P x.0
    → x ≡ (ok result, s')
    → P result
Holds-ok P x h e = subst (λ y. Holds P y.0) e h

abbrev pub StepHolds : (LoopResult → Type 0) → Step → Type 0
StepHolds P (done result) = Holds P result
StepHolds P (again c) = Unit

-- An approval that the threshold lets pass, as `approve` makes it.
abbrev pub approval : RiskTolerance → PlanVersion → List Finding → ApprovedPlan
approval r plan findings = record {
  plan = plan;
  findings = (resolve_threshold findings r).1.acknowledged;
  risk_tolerance = r;
}

pub approve_with_met :
    (r : RiskTolerance) (plan : PlanVersion) (findings : List Finding) (code : ReasonCode)
    → (resolve_threshold findings r).0 ≡ true
    → approve_with r plan findings code (resolve_threshold findings r).1
      ≡ ok (approved_result plan findings code (approval r plan findings))
unfolding approve_with approve resolve_threshold
approve_with_met r plan findings code h = ground arith

-- Findings that do not meet the threshold lead to no partial approval, whatever the policy, the plan and
-- its predecessor: the merged plan is held against the same findings and one more.
pub auto_converge-none :
    (goal : Goal) (config : LoopConfig) (planner : Planner) (r : RiskTolerance) (cap : ℕ)
    (clock : ℕ → ℕ → ℕ) (plan : PlanVersion) (prior : Option PlanVersion) (findings : List Finding)
    → (resolve_threshold findings r).0 ≡ false
    → auto_converge goal config planner r cap clock plan prior findings ≡ none
unfolding auto_converge
auto_converge-none goal config planner r cap clock plan prior findings unmet =
    let still = threshold-append findings (converge_finding plan ∷ []) r in
    elim (Bool-cases (config.converge_policy == "auto_converge")) [
      | inr other ↦ rw other refl
      | inl policy ↦ elim (Option-cases (build_auto_converged_plan plan prior)) [
        | inl absent ↦ rw (policy, absent) refl
        | inr (merged, present) ↦
            let unmet' : (resolve_threshold (findings ++ converge_finding plan ∷ []) r).0 ≡ false =
              ground (arith, still) in
            rw (policy, present, unmet') refl
      ]
    ]

module _ (goal : Goal) (config : LoopConfig) (planner : Planner) (r : RiskTolerance) (cap : ℕ)
    (clock : ℕ → ℕ → ℕ) (P : LoopResult → Type 0)
    (on_escalate : (plan : PlanVersion) (findings : List Finding) (reason : ReasonCode) (index : ℕ)
      → P (escalate goal plan findings reason index)) where
  revised-Holds :
      (c : Carry) (s : Session) (x : Result PlanVersion)
      → StepHolds P (revised goal config planner r cap clock c s x).0
  revised-Holds c s (ok plan) = tt
  revised-Holds c s (err e) = tt

  advance-Holds :
      (revision : ℕ) (c : Carry) (findings : List Finding) (s : Session)
      → StepHolds P (advance goal config planner r cap clock revision c findings s).0
  unfolding advance
  advance-Holds revision c findings s = elim (Bool-cases (ltb revision cap)) [
    | inl more ↦ rw more (
        revised-Holds (record c { prior_plan = some c.plan; prior_findings = findings }) s
          (revise_or_raise planner goal revision c.plan findings))
    | inr last ↦ rw last tt
  ]

  unless_cycling-Holds :
      (revision : ℕ) (c : Carry) (findings : List Finding) (s : Session) (x : Result Bool)
      → StepHolds P (unless_cycling goal config planner r cap clock revision c findings s x).0
  unless_cycling-Holds revision c findings s (err e) = tt
  unless_cycling-Holds revision c findings s (ok true) = on_escalate _ _ _ _
  unless_cycling-Holds revision c findings s (ok false) = advance-Holds revision c findings s

  after_oscillation-Holds :
      (revision : ℕ) (c : Carry) (findings : List Finding) (s : Session)
      → StepHolds P (after_oscillation goal config planner r cap clock revision c findings s).0
  unfolding after_oscillation
  after_oscillation-Holds revision c findings s =
      let c' = record c {
        hist_history = c.hist_history ++ compute_family_histogram findings ∷ [];
      } in
      unless_cycling-Holds revision c' findings s (cycling goal config planner r cap clock c')

  progress_tests-Holds :
      (revision : ℕ) (c : Carry) (findings : List Finding) (s : Session)
      → (resolve_threshold findings r).0 ≡ false
      → StepHolds P (progress_tests goal config planner r cap clock revision c findings s).0
  unfolding progress_tests
  progress_tests-Holds revision c findings s unmet =
      elim (Bool-cases (is_abort goal.replan_policy)) [
        | inl h ↦ rw h (on_escalate _ _ _ _)
        | inr h ↦ elim (Bool-cases (regression_detected c.prior_findings findings)) [
          | inl k ↦ rw (h, k) (on_escalate _ _ _ _)
          | inr k ↦ elim (Bool-cases (stalled c.prior_plan c.prior_findings c.plan findings)) [
            | inl l ↦ rw (h, k, l) (on_escalate _ _ _ _)
            | inr l ↦
                elim (Bool-cases (detect_oscillation c.sig_history config.oscillation_window)) [
                  | inl m ↦
                      rw
                        (
                          h,
                          k,
                          l,
                          m,
                          auto_converge-none goal config planner r cap clock c.plan c.prior_plan
                              findings unmet,
                        )
                        (on_escalate _ _ _ _)
                  | inr m ↦ rw (h, k, l, m) (after_oscillation-Holds revision c findings s)
                ]
          ]
        ]
      ]

  unless_run_spent-Holds :
      (revision : ℕ) (plan : PlanVersion) (findings : List Finding) (k : Session → Step × Session)
      (x : Option ReasonCode × Session)
      → ((s : Session) → StepHolds P (k s).0)
      → StepHolds P (unless_run_spent goal config planner r cap clock revision plan findings k x).0
  unless_run_spent-Holds revision plan findings k (some code, s) hk = on_escalate _ _ _ _
  unless_run_spent-Holds revision plan findings k (none, s) hk = hk s

  pub unless_spent-Holds :
      (revision place : ℕ) (plan : PlanVersion) (findings : List Finding)
      (k : Session → Step × Session) (s : Session)
      → ((s : Session) → StepHolds P (k s).0)
      → StepHolds P
          (unless_spent goal config planner r cap clock revision place plan findings k s).0
  unfolding unless_spent
  unless_spent-Holds revision place plan findings k s hk =
      elim (Bool-cases (budget_exceeded goal.constraints.budget s.spend).0) [
        | inl h ↦ rw h (on_escalate _ _ _ _)
        | inr h ↦ rw h (
            unless_run_spent-Holds revision plan findings k
              (check_run (clock revision place)
                (record s { spend = (budget_exceeded goal.constraints.budget s.spend).1 }))
              hk)
      ]

  -- A revision is judged: an approval is one of the plan at hand, under findings that meet the
  -- threshold.
  pub judge-Holds :
      (revision : ℕ) (c : Carry) (gate_findings findings : List Finding) (s : Session)
      → ((resolve_threshold findings r).0 ≡ true
          → P (approved_result c.plan findings "approved" (approval r c.plan findings)))
      → StepHolds P (judge goal config planner r cap clock revision c gate_findings findings s).0
  unfolding judge
  judge-Holds revision c gate_findings findings s on_approve =
      elim (Bool-cases (resolve_threshold findings r).0) [
        | inl met ↦ rw (met, approve_with_met r c.plan findings "approved" met) (on_approve met)
        | inr unmet ↦ elim (Bool-cases (critic_satisfied findings)) [
          | inl quiet ↦ absurd (ground (arith, quiet-threshold findings r quiet))
          | inr loud ↦
              rw (unmet, loud)
                (unless_spent-Holds revision 3 c.plan findings
                  (progress_tests goal config planner r cap clock revision c findings) s
                  (λ s'. progress_tests-Holds revision c findings s' unmet))
        ]
      ]
