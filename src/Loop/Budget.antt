-- ===== src/Loop/Budget.antt =====
-- loop/budget.py: the spend counters of one goal.
pub mod Ceilings
use planner_critic_engine.Prelude.{
  ℕ, ◌+◌, String, Bool, true, false, Option, none, some, List, [], ◌∷◌, ◌++◌, ltb, if◌then◌else◌,
}
use planner_critic_engine.Schema.Goal.{Budget}

pub record SpendState : Type 0 where
  pub revisions_used : ℕ
  pub calls_used : ℕ
  pub tokens_used : ℕ
  pub exceeded : Bool
  pub hits : List String

abbrev pub fresh_spend : SpendState
fresh_spend = record {
  revisions_used = 0;
  calls_used = 0;
  tokens_used = 0;
  exceeded = false;
  hits = [];
}

unfoldable pub record_revision : SpendState → SpendState
record_revision s = record s { revisions_used = s.revisions_used + 1 }

unfoldable pub record_llm_call : ℕ → SpendState → SpendState
record_llm_call tokens s = record s {
  calls_used = s.calls_used + 1;
  tokens_used = s.tokens_used + tokens;
}

-- `_breach`
abbrev breach : String → SpendState → SpendState
breach ceiling s = record s { exceeded = true; hits = s.hits ++ ceiling ∷ [] }

-- One of the three tests of `check`.
abbrev check_ceiling : Option ℕ → ℕ → String → SpendState → SpendState
check_ceiling none used name s = s
check_ceiling (some limit) used name s = if ltb limit used then breach name s else s

abbrev pub check_ceilings : Budget → SpendState → SpendState
check_ceilings budget s =
    let after_revisions = check_ceiling budget.max_revisions s.revisions_used "max_revisions" s in
    let after_calls =
      check_ceiling budget.max_calls after_revisions.calls_used "max_calls" after_revisions in
    check_ceiling budget.max_tokens after_calls.tokens_used "max_tokens" after_calls

-- `check`: the first breach latches.
unfoldable pub budget_exceeded : Budget → SpendState → Bool × SpendState
budget_exceeded budget s =
    if s.exceeded then (true, s) else ((check_ceilings budget s).exceeded, check_ceilings budget s)
