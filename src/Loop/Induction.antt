-- ===== src/Loop/Induction.antt =====
-- The proof rule of Outcome, carried through the gates, the audit, the rounds and `run_loop`.
use planner_critic_engine.Prelude.{
  ℕ, zero, suc, String, true, ◌&&◌, Option, some, List, [], ◌∷◌, ◌++◌, ◌≡◌, refl, Result, ok, err,
  string_eq, Bool-cases, inl, inr, ltb, if◌then◌else◌,
}
use planner_critic_engine.Schema.Goal.{Goal, RiskTolerance}
use planner_critic_engine.Schema.Plan.{PlanVersion}
use planner_critic_engine.Schema.Acceptance.{AcceptanceContract, risk_tolerance}
use planner_critic_engine.Types.{Finding, ReasonCode}
use planner_critic_engine.Critique.Mode.{has_blocker, is_deterministic_first}
use planner_critic_engine.Gates.Base.{Gate}
use planner_critic_engine.Approval.{resolve_threshold}
use planner_critic_engine.Loop.Budget.{SpendState, record_revision}
use planner_critic_engine.Loop.Oscillation.{compute_plan_signature}
use planner_critic_engine.Loop.Roles.{
  LoopConfig, LoopResult, Session, Carry, Planner, Critic, Reply, raised, untyped, answer,
}
use planner_critic_engine.Loop.Escalate.{escalate, revise_or_raise}
use planner_critic_engine.Loop.GatePhase.{Gated, gate_phase}
use planner_critic_engine.Loop.Audit.{Audit, stop, go_on, audit_phase}
use planner_critic_engine.Loop.Judge.{Step, done, again, approved_result, process}
use planner_critic_engine.Loop.Controller.{
  effective_cap, replanned, blocked_round, judge_audit, audited_round, after_gates, round, rounds,
  first_carry, contract_of, run_with, start, run, with_spend, run_loop,
}
use planner_critic_engine.Loop.Outcome.{Holds, StepHolds, approval, unless_spent-Holds, judge-Holds}
use planner_critic_engine.Loop.Extends.{Extends, audit_phase-Extends}

module _ (goal : Goal) (config : LoopConfig) (planner : Planner) (critic : Critic)
    (extra_gates : List Gate) (r : RiskTolerance) (cap : ℕ) (clock : ℕ → ℕ → ℕ)
    (P : LoopResult → Type 0)
    (on_escalate : (plan : PlanVersion) (findings : List Finding) (reason : ReasonCode) (index : ℕ)
      → P (escalate goal plan findings reason index))
    (on_approve : (plan : PlanVersion) (g : Gated) (rest : List Finding)
      → gate_phase config extra_gates plan ≡ ok g
      → (resolve_threshold (g.gate_findings ++ rest) r).0 ≡ true
      → P (
          approved_result g.plan
            (g.gate_findings ++ rest)
            "approved"
            (approval r g.plan (g.gate_findings ++ rest)))) where
  replanned-Holds :
      (c : Carry) (s : Session) (x : Result PlanVersion)
      → StepHolds P (replanned goal config planner critic extra_gates r cap clock c s x).0
  replanned-Holds c s (ok plan) = tt
  replanned-Holds c s (err e) = tt

  blocked_round-Holds :
      (revision : ℕ) (c : Carry) (gate_findings : List Finding) (s : Session)
      → StepHolds P
          (blocked_round goal config planner critic extra_gates r cap clock revision c gate_findings
            s).0
  unfolding blocked_round
  blocked_round-Holds revision c gate_findings s =
      unless_spent-Holds goal config planner r cap clock P on_escalate revision 0 c.plan
        gate_findings
        (λ s'.
          if ltb revision cap
          then replanned goal config planner critic extra_gates r cap clock c s'
              (revise_or_raise planner goal revision c.plan gate_findings)
          else (done (ok (escalate goal c.plan gate_findings "revision_cap_reached" revision)), s'))
        s
        (λ s'. elim (Bool-cases (ltb revision cap)) [
          | inl more ↦ rw more (replanned-Holds c s' _)
          | inr last ↦ rw last (on_escalate _ _ _ _)
        ])

  judge_audit-Holds :
      (plan : PlanVersion) (g : Gated) (gated : gate_phase config extra_gates plan ≡ ok g)
      (revision : ℕ) (c : Carry) (at : c.plan ≡ g.plan) (x : Audit × Session)
      → Extends g.gate_findings x.0
      → StepHolds P
          (judge_audit goal config planner critic extra_gates r cap clock revision c g.gate_findings
            x).0
  judge_audit-Holds plan g gated revision c at (stop code, s) e = on_escalate _ _ _ _
  judge_audit-Holds plan g gated revision c at (go_on findings, s) (rest, e) =
      judge-Holds goal config planner r cap clock P on_escalate revision c g.gate_findings findings
        s (rw (e, at) (on_approve plan g rest gated))

  after_gates-Holds :
      (plan : PlanVersion) (revision : ℕ) (c : Carry) (s : Session) (x : Result Gated)
      → gate_phase config extra_gates plan ≡ x
      → StepHolds P
          (after_gates goal config planner critic extra_gates r cap clock revision c s x).0
  after_gates-Holds plan revision c s (err e) gated = tt
  after_gates-Holds plan revision c s (ok g) gated =
      let c' = record c {
        plan = g.plan;
        sig_history = c.sig_history ++ compute_plan_signature g.plan ∷ [];
      } in
      elim (Bool-cases (is_deterministic_first config.mode && has_blocker g.gate_findings)) [
        | inl blocked ↦ rw blocked (blocked_round-Holds revision c' g.gate_findings s)
        | inr clear ↦ rw clear (
            unfold audited_round in
            judge_audit-Holds plan g gated revision c' refl
              (audit_phase goal critic config.mode clock revision g.plan g.gate_findings
                c.prior_plan s)
              (audit_phase-Extends goal critic config.mode clock revision g.plan g.gate_findings
                c.prior_plan s))
      ]

  round-Holds :
      (revision : ℕ) (c : Carry) (s : Session)
      → StepHolds P (round goal config planner critic extra_gates r cap clock revision c s).0
  unfolding round
  round-Holds revision c s =
      after_gates-Holds c.plan revision c (record s { spend = record_revision s.spend })
        (gate_phase config extra_gates c.plan) refl

  pub rounds-Holds :
      (left revision : ℕ) (c : Carry) (s : Session)
      → Holds P (rounds goal config planner critic extra_gates r cap clock left revision c s).0
  unfolding rounds
  rounds-Holds zero revision c s = on_escalate _ _ _ _
  rounds-Holds (suc left) revision c s =
      go (round goal config planner critic extra_gates r cap clock revision c s)
        (round-Holds revision c s) (λ c' s'. rounds-Holds left (suc revision) c' s')
    where
      go :
          (x : Step × Session)
          → StepHolds P x.0
          → ((c' : Carry) (s' : Session)
              → Holds P
                  (rounds goal config planner critic extra_gates r cap clock left
                    (suc revision)
                    c'
                    s').0)
          → Holds P
              (elim x.0 as (λ x. Result LoopResult × Session) [
                | done result ↦ (result, x.1)
                | again c' ↦
                    rounds goal config planner critic extra_gates r cap clock left
                      (suc revision)
                      c'
                      x.1
              ]).0
      go (done result, s') h k = h
      go (again c', s') h k = k c' s'

module _ (sha256 : String → String) (goal : Goal) (config : LoopConfig) (planner : Planner)
    (critic : Critic) (extra_gates : List Gate) (acceptance : Option AcceptanceContract)
    (clock : ℕ → ℕ → ℕ) (P : RiskTolerance → LoopResult → Type 0)
    (on_spend : (r : RiskTolerance) (result : LoopResult) (spend : Option SpendState)
      → P r result
      → P r (record result { spend = spend }))
    (on_rounds : (r : RiskTolerance) (left revision : ℕ) (c : Carry) (s : Session)
      → Holds
          (P r)
          (rounds goal config planner critic extra_gates r
            (effective_cap config goal)
            clock
            left
            revision
            c
            s).0) where
  abbrev pub posture : Result RiskTolerance
  posture = risk_tolerance (contract_of sha256 goal acceptance)

  abbrev pub UnderPosture : LoopResult → Type 0
  UnderPosture result = (r : RiskTolerance) × (posture ≡ ok r) × P r result

  Holds-UnderPosture :
      (r : RiskTolerance) (x : Result LoopResult)
      → posture ≡ ok r
      → Holds (P r) x
      → Holds UnderPosture x
  Holds-UnderPosture r (ok result) bound h = (r, bound, h)
  Holds-UnderPosture r (err e) bound h = tt

  run_with-Holds :
      (plan : PlanVersion) (s : Session) (x : Result RiskTolerance)
      → posture ≡ x
      → Holds UnderPosture
          (run_with sha256 goal config planner critic extra_gates acceptance clock plan s x).0
  run_with-Holds plan s (err e) bound = tt
  run_with-Holds plan s (ok r) bound =
      Holds-UnderPosture r _ bound (on_rounds r (effective_cap config goal) 1 (first_carry plan) s)

  start-Holds :
      (s : Session) (reply : Reply)
      → Holds UnderPosture
          (start sha256 goal config planner critic extra_gates acceptance clock s reply).0
  start-Holds s raised = tt
  start-Holds s untyped = tt
  start-Holds s (answer plan) = run_with-Holds plan (process plan s) posture refl

  with_spend-Holds :
      (s : Session) (x : Result LoopResult)
      → Holds UnderPosture x
      → Holds UnderPosture
          (with_spend sha256 goal config planner critic extra_gates acceptance clock s x)
  with_spend-Holds s (ok result) (r, bound, h) = (r, bound, on_spend r result (some s.spend) h)
  with_spend-Holds s (err e) h = tt

  pub run_loop-Holds :
      (s : Session)
      → Holds UnderPosture
          (run_loop sha256 goal config planner critic extra_gates acceptance clock s).0
  unfolding run_loop run
  run_loop-Holds s =
      with_spend-Holds
        (start sha256 goal config planner critic extra_gates acceptance clock s
          (planner.decompose goal)).1
        (start sha256 goal config planner critic extra_gates acceptance clock s
          (planner.decompose goal)).0
        (start-Holds s (planner.decompose goal))
