-- ===== src/Critique/Mode.antt =====
-- critique/mode.py: the modes of critique.
use planner_critic_engine.Prelude.{
  String, Bool, true, false, not, List, Result, ok, err, value_error, any, ◌==◌, string_eq,
  if◌then◌else◌,
}
use planner_critic_engine.Types.{Finding, is_blocker}

pub data CriticMode : Type 0 where
  heuristic_only deterministic_first llm_every_revision : CriticMode

abbrev pub is_deterministic_first : CriticMode → Bool
is_deterministic_first heuristic_only = false
is_deterministic_first deterministic_first = true
is_deterministic_first llm_every_revision = false

-- `_has_blocker` of loop/_controller.py, the same test.
abbrev pub has_blocker : List Finding → Bool
has_blocker findings = any (λ f. is_blocker f.severity) findings

unfoldable pub should_invoke_llm : CriticMode → List Finding → Bool
should_invoke_llm heuristic_only findings = false
should_invoke_llm llm_every_revision findings = true
should_invoke_llm deterministic_first findings = not (has_blocker findings)

unfoldable pub validate_mode : String → Result CriticMode
validate_mode mode =
    if mode == "heuristic-only"
    then ok heuristic_only
    else if mode == "deterministic-first"
    then ok deterministic_first
    else if mode == "llm-every-revision"
    then ok llm_every_revision
    else err value_error
