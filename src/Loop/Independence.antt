-- ===== src/Loop/Independence.antt =====
-- Where the critic is not asked, it has no influence.
use planner_critic_engine.Prelude.{
  ℕ, zero, suc, String, false, ◌&&◌, Option, List, ◌++◌, [], ◌∷◌, ◌≡◌, refl, sym, ◌∙◌, ap, Result,
  ok, err, Bool-cases, inl, inr,
}
use planner_critic_engine.Schema.Goal.{Goal, RiskTolerance}
use planner_critic_engine.Schema.Plan.{PlanVersion}
use planner_critic_engine.Schema.Acceptance.{AcceptanceContract, risk_tolerance}
use planner_critic_engine.Types.{Finding}
use planner_critic_engine.Critique.Mode.{
  CriticMode, heuristic_only, has_blocker, is_deterministic_first, should_invoke_llm,
}
use planner_critic_engine.Gates.Base.{Gate}
use planner_critic_engine.Loop.Roles.{
  LoopConfig, LoopResult, Session, Carry, Planner, Critic, Reply, raised, untyped, answer,
}
use planner_critic_engine.Loop.Budget.{record_revision}
use planner_critic_engine.Loop.Oscillation.{compute_plan_signature}
use planner_critic_engine.Loop.Audit.{Audit, go_on, audit_phase}
use planner_critic_engine.Loop.GatePhase.{Gated, gate_phase}
use planner_critic_engine.Loop.Judge.{Step, done, again, process}
use planner_critic_engine.Loop.Controller.{
  effective_cap, blocked_round, judge_audit, audited_round, after_gates, round, rounds, first_carry,
  contract_of, run_with, start, run, with_spend, run_loop,
}

audit_phase-silent :
    (goal : Goal) (critic : Critic) (mode : CriticMode) (clock : ℕ → ℕ → ℕ) (revision : ℕ)
    (plan : PlanVersion) (gate_findings : List Finding) (prior : Option PlanVersion) (s : Session)
    → should_invoke_llm mode gate_findings ≡ false
    → audit_phase goal critic mode clock revision plan gate_findings prior s
      ≡ (go_on gate_findings, s)
unfolding audit_phase
audit_phase-silent goal critic mode clock revision plan gate_findings prior s silent =
    rw silent refl

module _ (goal : Goal) (config : LoopConfig) (planner : Planner) (critic other : Critic)
    (extra_gates : List Gate) (r : RiskTolerance) (cap : ℕ) (clock : ℕ → ℕ → ℕ) where
  audited_round-silent :
      (revision : ℕ) (c : Carry) (gate_findings : List Finding) (s : Session)
      → should_invoke_llm config.mode gate_findings ≡ false
      → audited_round goal config planner critic extra_gates r cap clock revision c gate_findings s
        ≡ audited_round goal config planner other extra_gates r cap clock revision c gate_findings s
  unfolding audited_round
  audited_round-silent revision c gate_findings s silent =
      ap (judge_audit goal config planner critic extra_gates r cap clock revision c gate_findings) (
        audit_phase-silent goal critic config.mode clock revision c.plan gate_findings c.prior_plan
          s silent
        ∙ sym (
            audit_phase-silent goal other config.mode clock revision c.plan gate_findings
              c.prior_plan s silent))
      ∙ same_judge
          (audit_phase goal other config.mode clock revision c.plan gate_findings c.prior_plan s)
    where
      same_judge :
          (x : Audit × Session)
          → judge_audit goal config planner critic extra_gates r cap clock revision c gate_findings
              x
            ≡ judge_audit goal config planner other extra_gates r cap clock revision c gate_findings
                x
      same_judge (Audit.stop code, s') = refl
      same_judge (go_on findings, s') = refl

  after_gates-silent :
      (revision : ℕ) (c : Carry) (s : Session) (x : Result Gated)
      → ((g : Gated) → x ≡ ok g → should_invoke_llm config.mode g.gate_findings ≡ false)
      → after_gates goal config planner critic extra_gates r cap clock revision c s x
        ≡ after_gates goal config planner other extra_gates r cap clock revision c s x
  after_gates-silent revision c s (err e) silent = refl
  after_gates-silent revision c s (ok g) silent =
      let c' = record c {
        plan = g.plan;
        sig_history = c.sig_history ++ compute_plan_signature g.plan ∷ [];
      } in
      elim (Bool-cases (is_deterministic_first config.mode && has_blocker g.gate_findings)) [
        | inl blocked ↦ rw blocked (unfold blocked_round in refl)
        | inr clear ↦ rw clear (audited_round-silent revision c' g.gate_findings s (silent g refl))
      ]

  -- In a revision in whose gate phase nothing calls for the critic, in particular one that a gate blocks
  -- under "deterministic-first", any two critics lead to the same step and the same state.
  pub round-silent :
      (revision : ℕ) (c : Carry) (s : Session)
      → ((g : Gated)
          → gate_phase config extra_gates c.plan ≡ ok g
          → should_invoke_llm config.mode g.gate_findings ≡ false)
      → round goal config planner critic extra_gates r cap clock revision c s
        ≡ round goal config planner other extra_gates r cap clock revision c s
  unfolding round
  round-silent revision c s silent =
      after_gates-silent revision c (record s { spend = record_revision s.spend })
        (gate_phase config extra_gates c.plan) silent

  rounds-silent :
      (left revision : ℕ) (c : Carry) (s : Session)
      → config.mode ≡ heuristic_only
      → rounds goal config planner critic extra_gates r cap clock left revision c s
        ≡ rounds goal config planner other extra_gates r cap clock left revision c s
  unfolding rounds
  rounds-silent zero revision c s mode = refl
  rounds-silent (suc left) revision c s mode =
      let same = round-silent revision c s (λ g _. unfold should_invoke_llm in rw mode refl) in
      ap
        (λ x. elim x.0 as (λ y. Result LoopResult × Session) [
          | done result ↦ (result, x.1)
          | again c' ↦
              rounds goal config planner critic extra_gates r cap clock left (suc revision) c' x.1
        ])
        same
      ∙ go (round goal config planner other extra_gates r cap clock revision c s)
          (λ c' s'. rounds-silent left (suc revision) c' s' mode)
    where
      go :
          (x : Step × Session)
          → ((c' : Carry) (s' : Session)
              → rounds goal config planner critic extra_gates r cap clock left (suc revision) c' s'
                ≡ rounds goal config planner other extra_gates r cap clock left
                    (suc revision)
                    c'
                    s')
          → (elim x.0 as (λ x. Result LoopResult × Session) [
            | done result ↦ (result, x.1)
            | again c' ↦
                rounds goal config planner critic extra_gates r cap clock left (suc revision) c' x.1
          ])
            ≡ (elim x.0 as (λ x. Result LoopResult × Session) [
              | done result ↦ (result, x.1)
              | again c' ↦
                  rounds goal config planner other extra_gates r cap clock left
                    (suc revision)
                    c'
                    x.1
            ])
      go (done result, s') h = refl
      go (again c', s') h = h c' s'

module _ (sha256 : String → String) (goal : Goal) (config : LoopConfig) (planner : Planner)
    (critic other : Critic) (extra_gates : List Gate) (acceptance : Option AcceptanceContract)
    (clock : ℕ → ℕ → ℕ) (mode : config.mode ≡ heuristic_only) where
  run_with-silent :
      (plan : PlanVersion) (s : Session) (x : Result RiskTolerance)
      → run_with sha256 goal config planner critic extra_gates acceptance clock plan s x
        ≡ run_with sha256 goal config planner other extra_gates acceptance clock plan s x
  run_with-silent plan s (err e) = refl
  run_with-silent plan s (ok r) =
      rounds-silent goal config planner critic other extra_gates r (effective_cap config goal) clock
        (effective_cap config goal) 1 (first_carry plan) s mode

  start-silent :
      (s : Session) (reply : Reply)
      → start sha256 goal config planner critic extra_gates acceptance clock s reply
        ≡ start sha256 goal config planner other extra_gates acceptance clock s reply
  start-silent s raised = refl
  start-silent s untyped = refl
  start-silent s (answer plan) =
      run_with-silent plan (process plan s) (risk_tolerance (contract_of sha256 goal acceptance))

  run-silent :
      (s : Session)
      → run sha256 goal config planner critic extra_gates acceptance clock s
        ≡ run sha256 goal config planner other extra_gates acceptance clock s
  unfolding run
  run-silent s = start-silent s (planner.decompose goal)

-- Under the mode "heuristic-only" the critic has no say: with any two critics the run ends in the same
-- result and leaves the same state.
pub run_loop-silent :
    (sha256 : String → String) (goal : Goal) (config : LoopConfig) (planner : Planner)
    (critic other : Critic) (extra_gates : List Gate) (acceptance : Option AcceptanceContract)
    (clock : ℕ → ℕ → ℕ) (s : Session)
    → config.mode ≡ heuristic_only
    → run_loop sha256 goal config planner critic extra_gates acceptance clock s
      ≡ run_loop sha256 goal config planner other extra_gates acceptance clock s
unfolding run_loop
run_loop-silent sha256 goal config planner critic other extra_gates acceptance clock s mode =
    let same =
      run-silent sha256 goal config planner critic other extra_gates acceptance clock mode s in
    ap
      (λ x.
        (with_spend sha256 goal config planner critic extra_gates acceptance clock x.1 x.0, x.1))
      same
    ∙ refold (run sha256 goal config planner other extra_gates acceptance clock s)
  where
    spend_same :
        (s' : Session) (x : Result LoopResult)
        → with_spend sha256 goal config planner critic extra_gates acceptance clock s' x
          ≡ with_spend sha256 goal config planner other extra_gates acceptance clock s' x
    spend_same s' (err e) = refl
    spend_same s' (ok result) = refl

    refold :
        (x : Result LoopResult × Session)
        → Path
            (Result LoopResult × Session)
            (with_spend sha256 goal config planner critic extra_gates acceptance clock x.1 x.0, x.1)
            (with_spend sha256 goal config planner other extra_gates acceptance clock x.1 x.0, x.1)
    refold (x, s') = ap (λ y. (y, s')) (spend_same s' x)
