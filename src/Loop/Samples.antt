-- ===== src/Loop/Samples.antt =====
-- Small runs of the loop, and the theorems about it applied to them.
mod Applied
mod Tests
use planner_critic_engine.Prelude.{
  ℕ, String, Bool, true, false, Option, none, some, List, [], ◌∷◌, ◌≡◌, refl, Result, ok, any, str,
  repr,
}
use planner_critic_engine.Schema.Goal.{Goal, RiskTolerance, balanced, patch}
use planner_critic_engine.Schema.Plan.{PlanVersion, Task, Dependency, hard, low, high}
use planner_critic_engine.Types.{Finding}
use planner_critic_engine.Loop.Budget.{fresh_spend, record_revision, record_llm_call}
use planner_critic_engine.Loop.Roles.{
  LoopConfig, LoopResult, Session, Planner, Critic, default_config, answer, approved,
}
use planner_critic_engine.Loop.Controller.{run_loop, round, contract_of}
use planner_critic_engine.Loop.Settled.{Settled, run_loop-Settled}
use planner_critic_engine.Loop.GatesPassed.{run_loop-GatesPassed}
use planner_critic_engine.Loop.Regression.{is_gate_blocker}
use planner_critic_engine.Loop.GatePhase.{gate_phase}
use planner_critic_engine.Gates.{run_deterministic_gates}
use planner_critic_engine.Gates.Base.{gate_id}
use planner_critic_engine.Gates.SchemaValid.{schema_valid}
use planner_critic_engine.Gates.DepCycles.{dep_cycles}
use planner_critic_engine.Gates.Ordering.{ordering_sane}
use planner_critic_engine.Gates.Presence.{verification_present, rollback_present}
use planner_critic_engine.Gates.Preconditions.{preconditions_referenced}
use planner_critic_engine.Gates.ParallelSafety.{parallel_safety}
use planner_critic_engine.Gates.RequirementTrace.{requirement_trace}
use planner_critic_engine.Gates.VerificationOrdering.{verification_ordering}
use planner_critic_engine.Gates.RollbackCredible.{rollback_credible}
use planner_critic_engine.Loop.Reorder.{
  apply_ordering_auto_repair, topological_reorder, repair_trace,
}
use planner_critic_engine.Loop.Closer.{apply_precondition_closer}
use planner_critic_engine.Loop.Audit.{audit_phase}
use planner_critic_engine.Loop.Judge.{judge}
use planner_critic_engine.Loop.Escalate.{escalate}
use planner_critic_engine.Loop.Oscillation.{compute_plan_signature}
use planner_critic_engine.Approval.{approve, resolve_threshold}
use planner_critic_engine.Critique.Mode.{should_invoke_llm}
use planner_critic_engine.Critique.Scope.{scope_between}
use planner_critic_engine.Schema.Acceptance.{risk_tolerance, bind_acceptance}

abbrev pub task : String → Task
task id = record {
  id = id;
  description = "step";
  action = "check";
  target = "db";
  parallel_group = none;
  preconditions = [];
  verification = none;
  rollback = none;
  risk_class = low;
  blast_radius = "low";
  satisfies = none;
}

abbrev pub needs : String → String → Dependency
needs before after = record { from_task = before; to_task = after; kind = hard; reason = "" }

-- The two tasks stand in the wrong order.
abbrev pub swapped : PlanVersion
swapped = record {
  id = "plan-1";
  goal_id = "g";
  plan_schema_version = "0.1.0";
  version = 1;
  parent_version = none;
  tasks = task "b" ∷ task "a" ∷ [];
  dependencies = needs "a" "b" ∷ [];
  branches = [];
}

abbrev pub goal : Goal
goal = record {
  id = "g";
  description = "move the data";
  constraints = record {
    budget = record { max_tokens = none; max_calls = some 2; max_revisions = none };
    time = none;
    environment = none;
    tools = [];
  };
  risk_tolerance = balanced;
  replan_policy = patch;
  approval_ttl = none;
  metadata = [];
}

abbrev pub planner : Planner
planner = record { decompose = λ g. answer swapped; revise = λ n p fs. answer p }

abbrev pub silent_critic : Critic
silent_critic = record { audit = λ n p fs. some []; audit_diff = none }

abbrev pub fresh : Session
fresh = record { spend = fresh_spend; run_budget = none; ledger = none }

abbrev pub no_hash : String → String
no_hash s = s

abbrev pub clock : ℕ → ℕ → ℕ
clock revision place = 0

abbrev pub ordered : PlanVersion
ordered = record swapped { tasks = task "a" ∷ task "b" ∷ [] }

abbrev pub ordered_result : LoopResult
ordered_result = record {
  status = approved;
  plan = ordered;
  findings = repair_trace swapped ∷ [];
  reason_code = "approved";
  approved_plan = some (record { plan = ordered; findings = []; risk_tolerance = balanced });
  escalation = none;
  spend = some (record_llm_call 0 (record_revision fresh_spend));
}

abbrev pub ordered_session : Session
ordered_session = record fresh { spend = record_llm_call 0 (record_revision fresh_spend) }

-- What a run computes with.
unfoldable pub program : Unit {0}
unfolding run_loop round gate_phase run_deterministic_gates schema_valid dep_cycles ordering_sane
    verification_present rollback_present preconditions_referenced parallel_safety requirement_trace
    verification_ordering rollback_credible apply_ordering_auto_repair topological_reorder
    apply_precondition_closer gate_id repair_trace audit_phase judge approve resolve_threshold
    scope_between escalate record_revision record_llm_call compute_plan_signature risk_tolerance
    bind_acceptance str repr
program = tt

-- The wrong order is repaired, the critic is asked once, and the repaired plan is approved.
pub run_loop-swapped :
    run_loop no_hash goal default_config planner silent_critic [] none clock fresh
    ≡ (ok ordered_result, ordered_session)
unfolding program should_invoke_llm
run_loop-swapped = refl

run_loop-Settled_example :
    (r : RiskTolerance) × (risk_tolerance (contract_of no_hash goal none) ≡ ok r)
    × Settled r ordered_result
run_loop-Settled_example =
    run_loop-Settled no_hash goal default_config planner silent_critic [] none clock fresh
      ordered_session ordered_result run_loop-swapped

run_loop-GatesPassed_example :
    (findings : List Finding) × (run_deterministic_gates [] ordered ≡ ok findings)
    × (any is_gate_blocker findings ≡ false)
run_loop-GatesPassed_example =
    run_loop-GatesPassed no_hash goal default_config planner silent_critic [] none clock fresh
      ordered_session ordered_result run_loop-swapped refl
