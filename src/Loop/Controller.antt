-- ===== src/Loop/Controller.antt =====
-- loop/_controller.py: `_run` and `run_loop`.
use planner_critic_engine.Prelude.{
  ℕ, zero, suc, String, ◌&&◌, Option, none, some, List, [], ◌∷◌, ◌++◌, Result, ok, err,
  planning_error, ltb, if◌then◌else◌,
}
use planner_critic_engine.Schema.Goal.{Goal, RiskTolerance, is_strict}
use planner_critic_engine.Schema.Plan.{PlanVersion}
use planner_critic_engine.Schema.Acceptance.{AcceptanceContract, risk_tolerance, bind_acceptance}
use planner_critic_engine.Types.{Finding}
use planner_critic_engine.Critique.Mode.{is_deterministic_first, has_blocker}
use planner_critic_engine.Gates.Base.{Gate}
use planner_critic_engine.Loop.Budget.{record_revision}
use planner_critic_engine.Loop.Oscillation.{compute_plan_signature}
use planner_critic_engine.Loop.Roles.{
  LoopConfig, LoopResult, Session, Carry, Planner, Critic, Reply, raised, untyped, answer,
}
use planner_critic_engine.Loop.Escalate.{escalate, revise_or_raise}
use planner_critic_engine.Loop.GatePhase.{Gated, gate_phase}
use planner_critic_engine.Loop.Audit.{Audit, stop, go_on, audit_phase}
use planner_critic_engine.Loop.Judge.{Step, done, again, judge, unless_spent, process}

-- The adaptive cap of a strict goal.
unfoldable pub effective_cap : LoopConfig → Goal → ℕ
effective_cap config goal =
    if config.adaptive_revision_cap && (is_strict goal.risk_tolerance && ltb 1 config.revision_cap)
    then 1
    else config.revision_cap

module _ (goal : Goal) (config : LoopConfig) (planner : Planner) (critic : Critic)
    (extra_gates : List Gate) (r : RiskTolerance) (cap : ℕ) (clock : ℕ → ℕ → ℕ) where
  abbrev pub replanned : Carry → Session → Result PlanVersion → Step × Session
  replanned c s (err e) = (done (err e), s)
  replanned c s (ok plan) = (again (record c { plan = plan }), s)

  -- A revision in which a gate blocks: the critic is not asked.
  unfoldable pub blocked_round : ℕ → Carry → List Finding → Session → Step × Session
  unfolding unless_spent
  blocked_round revision c gate_findings s =
      unless_spent goal config planner r cap clock revision 0 c.plan gate_findings
        (λ s'.
          if ltb revision cap
          then replanned c s' (revise_or_raise planner goal revision c.plan gate_findings)
          else (done (ok (escalate goal c.plan gate_findings "revision_cap_reached" revision)), s'))
        s

  abbrev pub judge_audit : ℕ → Carry → List Finding → Audit × Session → Step × Session
  judge_audit revision c gate_findings (stop code, s) =
      (done (ok (escalate goal c.plan gate_findings code revision)), s)
  judge_audit revision c gate_findings (go_on findings, s) =
      judge goal config planner r cap clock revision c gate_findings findings s

  unfoldable pub audited_round : ℕ → Carry → List Finding → Session → Step × Session
  unfolding audit_phase judge
  audited_round revision c gate_findings s =
      judge_audit revision c gate_findings
        (audit_phase goal critic config.mode clock revision c.plan gate_findings c.prior_plan s)

  abbrev pub after_gates : ℕ → Carry → Session → Result Gated → Step × Session
  after_gates revision c s (err e) = (done (err e), s)
  after_gates revision c s (ok g) =
      let c' = record c {
        plan = g.plan;
        sig_history = c.sig_history ++ compute_plan_signature g.plan ∷ [];
      } in
      if is_deterministic_first config.mode && has_blocker g.gate_findings
      then blocked_round revision c' g.gate_findings s
      else audited_round revision c' g.gate_findings s

  -- The body of the loop.
  unfoldable pub round : ℕ → Carry → Session → Step × Session
  unfolding blocked_round audited_round
  round revision c s =
      after_gates revision c (record s { spend = record_revision s.spend })
        (gate_phase config extra_gates c.plan)

  -- The loop, by the rounds left, and the escalation behind it.
  unfoldable pub rounds : ℕ → ℕ → Carry → Session → Result LoopResult × Session
  rounds zero revision c s =
      (ok (escalate goal c.plan c.prior_findings "revision_cap_reached" cap), s)
  rounds (suc left) revision c s =
      let (step, s') = round revision c s in
      elim step [ done result ↦ (result, s') | again c' ↦ rounds left (suc revision) c' s' ]

abbrev pub first_carry : PlanVersion → Carry
first_carry plan = record {
  plan = plan;
  prior_plan = none;
  prior_findings = [];
  sig_history = [];
  hist_history = [];
}

-- The contract of the caller, or one bound to the goal's posture.
abbrev pub contract_of : (String → String) → Goal → Option AcceptanceContract → AcceptanceContract
contract_of sha256 goal none = bind_acceptance sha256 goal "engine"
contract_of sha256 goal (some contract) = contract

module _ (sha256 : String → String) (goal : Goal) (config : LoopConfig) (planner : Planner)
    (critic : Critic) (extra_gates : List Gate) (acceptance : Option AcceptanceContract)
    (clock : ℕ → ℕ → ℕ) where
  -- The loop under the posture of the contract, which is read once and never changes.
  abbrev pub run_with : PlanVersion → Session → Result RiskTolerance → Result LoopResult × Session
  run_with plan s (err e) = (err e, s)
  run_with plan s (ok r) =
      let cap = effective_cap config goal in
      rounds goal config planner critic extra_gates r cap clock cap 1 (first_carry plan) s

  abbrev pub start : Session → Reply → Result LoopResult × Session
  start s raised = (err (planning_error "planning_unavailable"), s)
  start s untyped = (err (planning_error "planning_unavailable"), s)
  start s (answer plan) =
      run_with plan (process plan s) (risk_tolerance (contract_of sha256 goal acceptance))

  -- `_run`
  unfoldable pub run : Session → Result LoopResult × Session
  unfolding rounds effective_cap
  run s = start s (planner.decompose goal)

  abbrev pub with_spend : Session → Result LoopResult → Result LoopResult
  with_spend s (err e) = err e
  with_spend s (ok result) = ok (record result { spend = some s.spend })

  -- `run_loop`: the result carries the spend counters.
  unfoldable pub run_loop : Session → Result LoopResult × Session
  unfolding run
  run_loop s = let (result, s') = run s in (with_spend s' result, s')
