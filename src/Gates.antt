-- ===== src/Gates.antt =====
-- gates/__init__.py: the deterministic gates in their stable order, then the extra gates of the caller.
pub mod Base
pub mod Positions
pub mod SchemaValid
pub mod DepCycles
pub mod Ordering
pub mod Presence
pub mod Preconditions
pub mod ParallelSafety
pub mod RequirementTrace
pub mod VerificationOrdering
pub mod RollbackCredible
pub mod Clean
pub mod Groups
use planner_critic_engine.Prelude.{List, [], ◌∷◌, ◌++◌, Result, ok, ◌>>=◌}
use planner_critic_engine.Schema.Plan.{PlanVersion}
use planner_critic_engine.Types.{Finding}
use Base.{Gate}
use SchemaValid.{schema_valid}
use DepCycles.{dep_cycles}
use Ordering.{ordering_sane}
use Presence.{verification_present, rollback_present}
use Preconditions.{preconditions_referenced}
use ParallelSafety.{parallel_safety}
use RequirementTrace.{requirement_trace}
use VerificationOrdering.{verification_ordering}
use RollbackCredible.{rollback_credible}

-- `GATES`
abbrev pub gates : List Gate
gates =
    schema_valid ∷ dep_cycles ∷ ordering_sane ∷ verification_present ∷ verification_ordering
    ∷ rollback_present ∷ rollback_credible ∷ preconditions_referenced ∷ parallel_safety
    ∷ requirement_trace ∷ []

-- `for gate in gates: findings.extend(gate.run(plan))`
unfoldable pub run_gates : List Gate → PlanVersion → Result (List Finding)
run_gates [] plan = ok []
run_gates (g ∷ gs) plan = do found ← g plan; rest ← run_gates gs plan; ok (found ++ rest)

unfoldable pub run_deterministic_gates : List Gate → PlanVersion → Result (List Finding)
unfolding run_gates
run_deterministic_gates extra_gates plan = run_gates (gates ++ extra_gates) plan
