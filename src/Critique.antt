-- ===== src/Critique.antt =====
-- src/planner_critic/critique: when the critic is asked, and about which tasks.
pub mod Mode
pub mod Scope
