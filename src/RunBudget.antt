-- ===== src/RunBudget.antt =====
-- run_budget.py: the ceilings of a whole run. Amounts and times are floating-point numbers there; here
-- they are natural numbers of some small unit. The monotonic clock is read by the caller and passed in.
pub mod Latch
use planner_critic_engine.Prelude.{ℕ, ◌+◌, ◌-◌, Bool, Option, none, some, ltb, if◌then◌else◌}
use planner_critic_engine.Types.{ReasonCode}

pub record RunBudget : Type 0 where
  pub run_max_budget_usd : Option ℕ
  pub run_max_depth : Option ℕ
  pub run_max_time : Option ℕ
  pub cumulative_spend_usd : ℕ
  pub cascading_depth : ℕ
  pub started_at : ℕ
  pub exceeded : Option ReasonCode

abbrev above : Option ℕ → ℕ → Bool
above none n = Bool.false
above (some limit) n = ltb limit n

unfoldable pub record_spend : ℕ → RunBudget → RunBudget
record_spend usd b =
    let spent = b.cumulative_spend_usd + usd in
    if above b.run_max_budget_usd spent
    then record b { cumulative_spend_usd = spent; exceeded = some "run_budget_exceeded" }
    else record b { cumulative_spend_usd = spent }

unfoldable pub record_replan : RunBudget → RunBudget
record_replan b =
    let depth = b.cascading_depth + 1 in
    if above b.run_max_depth depth
    then record b { cascading_depth = depth; exceeded = some "run_depth_exceeded" }
    else record b { cascading_depth = depth }

-- `check_timeout` at the time `now`
unfoldable pub check_timeout : ℕ → RunBudget → Option ReasonCode × RunBudget
check_timeout now b =
    if above b.run_max_time (now - b.started_at)
    then (some "run_timeout", record b { exceeded = some "run_timeout" })
    else (none, b)

unfoldable pub check : ℕ → RunBudget → Option ReasonCode × RunBudget
unfolding check_timeout
check now b = elim (check_timeout now b).0 [
  | some code ↦ (some code, (check_timeout now b).1)
  | none ↦ ((check_timeout now b).1.exceeded, (check_timeout now b).1)
]
