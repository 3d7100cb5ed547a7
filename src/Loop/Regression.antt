-- ===== src/Loop/Regression.antt =====
-- loop/regression.py: a revision that adds a gate blocker. Sets of keys are lists here.
use planner_critic_engine.Prelude.{
  String, Bool, false, ◌&&◌, not, Option, List, map, string_eq, option_eq, pair_eq, contains, any,
  filter, is_empty, if◌then◌else◌,
}
use planner_critic_engine.Types.{Finding, is_blocker, is_llm_finding}

abbrev pub is_gate_blocker : Finding → Bool
is_gate_blocker f = is_blocker f.severity && not (is_llm_finding f)

abbrev pub finding_key : Finding → String × Option String
finding_key f = (f.reason_code, f.task_id)

-- `_gate_blocker_keys`
abbrev pub gate_blocker_keys : List Finding → List (String × Option String)
gate_blocker_keys findings = map finding_key (filter is_gate_blocker findings)

unfoldable pub regression_detected : List Finding → List Finding → Bool
regression_detected prior current =
    if is_empty prior
    then false
    else any (λ k. not (contains (gate_blocker_keys prior) k)) (gate_blocker_keys current)
