-- ===== src/Loop/GatePhase.antt =====
-- loop/_controller.py, the deterministic part of a revision: the gates and the two repairs.
use planner_critic_engine.Prelude.{
  Bool, ◌&&◌, Option, none, some, List, [], ◌++◌, Result, ok, ◌>>=◌, any, ◌==◌, string_eq,
  if◌then◌else◌,
}
use planner_critic_engine.Schema.Plan.{PlanVersion}
use planner_critic_engine.Types.{Finding}
use planner_critic_engine.Critique.Mode.{has_blocker}
use planner_critic_engine.Gates.Base.{Gate}
use planner_critic_engine.Gates.{run_deterministic_gates}
use planner_critic_engine.Loop.Roles.{LoopConfig}
use planner_critic_engine.Loop.Reorder.{apply_ordering_auto_repair}
use planner_critic_engine.Loop.Closer.{seed_templates, apply_precondition_closer}

-- The plan under audit, the findings of its gates, and the trace of the repairs.
pub record Gated : Type 0 where
  pub plan : PlanVersion
  pub gate_findings : List Finding
  pub trace : List Finding

abbrev pub gated : PlanVersion → List Finding → Gated
gated plan findings = record { plan = plan; gate_findings = findings; trace = [] }

abbrev pub has_unverified : List Finding → Bool
has_unverified findings = any (λ f. f.reason_code == "unverified_precondition") findings

module _ (config : LoopConfig) (extra_gates : List Gate) where
  -- A repair is kept only if the gates then find no blocker.
  abbrev pub keep_repair : Gated → Option PlanVersion → List Finding → Result Gated
  keep_repair g none trace = ok g
  keep_repair g (some repaired) trace = do
    recheck ← run_deterministic_gates extra_gates repaired
    ok (
        if has_blocker recheck
        then g
        else record { plan = repaired; gate_findings = trace ++ recheck; trace = trace })

  unfoldable pub repair_phase : Gated → Result Gated
  repair_phase g =
      if config.auto_repair && has_blocker g.gate_findings
      then (do
        (repaired, trace) ← apply_ordering_auto_repair g.plan g.gate_findings
        keep_repair g repaired trace)
      else ok g

  abbrev pub keep_closed : Gated → Option (PlanVersion × List Finding) → Result Gated
  keep_closed g none = ok g
  keep_closed g (some (closed, trace)) = do
    recheck ← run_deterministic_gates extra_gates closed
    ok (record { plan = closed; gate_findings = g.trace ++ (trace ++ recheck); trace = g.trace })

  unfoldable pub closer_phase : Gated → Result Gated
  closer_phase g =
      if config.precondition_closer && has_unverified g.gate_findings
      then keep_closed g (apply_precondition_closer seed_templates g.plan g.gate_findings)
      else ok g

  unfoldable pub gate_phase : PlanVersion → Result Gated
  unfolding repair_phase closer_phase
  gate_phase plan = do
    findings ← run_deterministic_gates extra_gates plan
    repaired ← repair_phase (gated plan findings)
    closer_phase repaired
