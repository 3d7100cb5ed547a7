-- ===== src/Runtime.antt =====
-- What happens to an approved plan: its expiry, the check of its preconditions before a step, the record
-- of its execution, the classification of failures, and the metadata of a replan.
pub mod Ttl
pub mod ReGate
pub mod Replan
pub mod Recorder
pub mod Retries
pub mod Drift
pub mod Shadow
mod Samples
