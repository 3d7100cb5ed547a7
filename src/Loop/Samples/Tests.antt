-- ===== src/Loop/Samples/Tests.antt =====
-- The theorems about the closer, the histograms and the preconditions, applied to small inputs.
use planner_critic_engine.Prelude.{
  ℕ, ◌≤◌, Bool, true, false, not, none, some, List, [], ◌∷◌, ◌≡◌, refl, arith, ok, ◌==◌, string_eq,
  nat_eq, pair_eq, list_eq, filter, any, contains, nodup, repr, str,
}
use planner_critic_engine.Schema.Plan.{PlanVersion, Task}
use planner_critic_engine.Schema.Validate.{task_ids}
use planner_critic_engine.Types.{Finding, blocker}
use planner_critic_engine.Gates.Base.{gate_id, gate_finding}
use planner_critic_engine.Gates.Preconditions.{preconditions_referenced}
use planner_critic_engine.Gates.Preconditions.Grounding.{
  all_grounded, preconditions_referenced-grounded,
}
use planner_critic_engine.Loop.Regression.{is_gate_blocker}
use planner_critic_engine.Loop.Closer.{PreconditionTemplate, apply_precondition_closer}
use planner_critic_engine.Loop.Closer.Kept.{apply_precondition_closer-IsPatchOf}
use planner_critic_engine.Loop.Histogram.{FamilyHistogram, from_end, mass, detect_histogram_cycling}
use planner_critic_engine.Loop.Histogram.Fires.{
  detect_histogram_cycling-ok, detect_histogram_cycling-fires,
}
use planner_critic_engine.Loop.Samples.{task, ordered}

abbrev risky : FamilyHistogram
risky = ("risk", 2) ∷ []

abbrev weak : FamilyHistogram
weak = ("weak_rollback", 2) ∷ []

abbrev wheel : List FamilyHistogram
wheel = risky ∷ weak ∷ risky ∷ []

wheel_fires : detect_histogram_cycling wheel 2 ≡ ok true
unfolding detect_histogram_cycling
wheel_fires = refl

detect_histogram_cycling-ok_example : (b : Bool) × (detect_histogram_cycling wheel 2 ≡ ok b)
detect_histogram_cycling-ok_example = detect_histogram_cycling-ok wheel 2 (omega arith)

detect_histogram_cycling-fires_example :
    (latest previous : FamilyHistogram) × (p : ℕ) × (from_end wheel 0 ≡ ok latest)
    × (from_end wheel 1 ≡ ok previous)
    × (from_end wheel p ≡ ok latest)
    × (2 ≤ p)
    × (p ≤ 2)
    × ((latest == previous) ≡ false)
    × (mass previous ≤ mass latest)
detect_histogram_cycling-fires_example = detect_histogram_cycling-fires wheel 2 wheel_fires

-- A gap that a template knows.
abbrev template : PreconditionTemplate
template = record { name = "backup"; pattern = "Backup"; task = task "backup" }

abbrev gap : List Finding
gap =
    gate_finding ordered "gap" (some "b") blocker "unverified_precondition" "no backup of the data"
    ∷ []

abbrev closed : PlanVersion
closed = record ordered { tasks = task "a" ∷ task "backup" ∷ task "b" ∷ [] }

closer_run :
    (trace : List Finding) × (apply_precondition_closer (template ∷ []) ordered gap
      ≡ some (closed, trace))
unfolding apply_precondition_closer gate_id repr str
closer_run = (_, refl)

apply_precondition_closer-IsPatchOf_example :
    (new : Task) × (contains (task_ids ordered) new.id ≡ false)
    × (filter (λ u. not (u.id == new.id)) closed.tasks ≡ ordered.tasks)
    × (nodup (task_ids closed) ≡ nodup (task_ids ordered))
    × (closed ≡ record ordered { tasks = closed.tasks })
apply_precondition_closer-IsPatchOf_example =
    apply_precondition_closer-IsPatchOf (template ∷ []) ordered closed gap closer_run.0 closer_run.1

-- The second task relies on the first.
abbrev relying : PlanVersion
relying = record ordered {
  tasks =
      task "a"
      ∷ record (task "b") {
        preconditions =
            record {
              description = "a is done";
              fact = "done";
              established_by = some "a";
              probe = none;
            }
            ∷ [];
      }
      ∷ [];
}

preconditions_referenced-grounded_example :
    (found : List Finding) × (preconditions_referenced relying ≡ ok found)
    × (any is_gate_blocker found ≡ not (all_grounded [] relying.tasks))
preconditions_referenced-grounded_example = preconditions_referenced-grounded relying refl
