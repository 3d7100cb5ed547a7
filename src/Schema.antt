-- ===== src/Schema.antt =====
-- src/planner_critic/schema: the goal, the typed plan and its validation.
pub mod Goal
pub mod Plan
pub mod Validate
pub mod Acceptance
