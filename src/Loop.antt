-- ===== src/Loop.antt =====
-- src/planner_critic/loop: the draft, critique, revise, escalate loop.
pub mod Budget
pub mod Regression
pub mod Convergence
pub mod Oscillation
pub mod Histogram
pub mod Reorder
pub mod Closer
pub mod Roles
pub mod Escalate
pub mod GatePhase
pub mod Audit
pub mod Judge
pub mod Controller
pub mod Outcome
pub mod Extends
pub mod Induction
pub mod Settled
pub mod GatesPassed
pub mod Approved
pub mod Spend
pub mod Independence
pub mod Samples
