-- ===== src/Loop/Budget/Ceilings.antt =====
-- When the budget of a goal counts as exceeded.
use planner_critic_engine.Prelude.{ℕ, Bool, false, ◌||◌, Option, none, some, ◌≡◌, arith, ltb}
use planner_critic_engine.Schema.Goal.{Budget}
use planner_critic_engine.Loop.Budget.{SpendState, budget_exceeded}

-- A count above its ceiling, where there is one.
abbrev pub over : Option ℕ → ℕ → Bool
over none used = false
over (some limit) used = ltb limit used

-- Some count is above its ceiling.
abbrev pub any_over : Budget → SpendState → Bool
any_over budget s =
    over budget.max_revisions s.revisions_used
    || (over budget.max_calls s.calls_used || over budget.max_tokens s.tokens_used)

-- The budget reports a breach exactly if one was found before or some count is above its ceiling; the
-- state that it leaves remembers the answer and has the same counts.
pub budget_exceeded-any_over :
    (budget : Budget) (s : SpendState)
    → ((budget_exceeded budget s).0 ≡ (s.exceeded || any_over budget s))
      × ((budget_exceeded budget s).1.exceeded ≡ (budget_exceeded budget s).0)
      × ((budget_exceeded budget s).1.revisions_used ≡ s.revisions_used)
      × ((budget_exceeded budget s).1.calls_used ≡ s.calls_used)
      × ((budget_exceeded budget s).1.tokens_used ≡ s.tokens_used)
unfolding budget_exceeded
budget_exceeded-any_over budget s =
    (ground arith, ground arith, ground arith, ground arith, ground arith)
