-- ===== src/Loop/Closer.antt =====
-- loop/autofix.py, the precondition closer: it inserts a template's task before the task whose
-- precondition is not grounded. A template holds its task with the defaults of the schema filled in.
pub mod Kept
use planner_critic_engine.Prelude.{
  String, Option, none, some, List, [], ◌∷◌, text, repr, codes, lower, occurs_in, ◌==◌, string_eq,
  any, find, if◌then◌else◌,
}
use planner_critic_engine.Schema.Plan.{PlanVersion, Task, low}
use planner_critic_engine.Types.{Finding, info}
use planner_critic_engine.Gates.Base.{gate_id, gate_finding}

pub record PreconditionTemplate : Type 0 where
  pub name : String
  pub pattern : String
  pub task : Task

-- `Task.model_validate(task_fields)` of a seed template
abbrev seed_task : String → String → String → String → Task
seed_task id description action target = record {
  id = id;
  description = description;
  action = action;
  target = target;
  parallel_group = none;
  preconditions = [];
  verification = none;
  rollback = none;
  risk_class = low;
  blast_radius = "medium";
  satisfies = none;
}

abbrev seed : String → String → String → String → String → PreconditionTemplate
seed name pattern description action target = record {
  name = name;
  pattern = pattern;
  task = seed_task name description action target;
}

abbrev pub seed_templates : List PreconditionTemplate
seed_templates =
    seed "book-outage-window" "outage" "Book maintenance outage window with the platform team"
      "book" "outage_window"
    ∷ seed "run-schema-compat-check" "schema"
        "Run schema compatibility check against the target database" "check" "schema_compatibility"
    ∷ seed "verify-credential-rotation" "credential"
        "Verify credential rotation is complete before proceeding" "verify" "credential_rotation"
    ∷ seed "snapshot-before-migration" "snapshot"
        "Create a database snapshot before applying the migration" "snapshot" "database_snapshot"
    ∷ seed "check-capacity-headroom" "capacity" "Check capacity headroom in the target cluster"
        "check" "capacity_headroom"
    ∷ []

-- `_match_template`
unfoldable pub match_template : Finding → List PreconditionTemplate → Option PreconditionTemplate
unfolding lower occurs_in
match_template f templates =
    find (λ t. occurs_in (lower (codes t.pattern)) (lower (codes f.message))) templates

-- The inner loop: the new task goes before the first task with the given id.
unfoldable pub inject : Task → String → List Task → List Task
inject new target [] = []
inject new target (t ∷ ts) =
    let rest = inject new target ts in if t.id == target then new ∷ t ∷ ts else t ∷ rest

abbrev close_trace : PlanVersion → PreconditionTemplate → String → Finding
close_trace plan template target =
    gate_finding plan (gate_id "auto_close" plan (text (":" ∷ template.name ∷ []))) none info
      "auto_closed_precondition"
      (text (
        "auto-closed precondition gap via template "
        ∷ repr template.name
        ∷ " — injected task "
        ∷ repr template.name
        ∷ " before "
        ∷ repr target
        ∷ []))

-- The body of the loop: the patch, unless the finding is passed over.
unfoldable pub close_with :
    PlanVersion
    → Finding
    → Option PreconditionTemplate
    → Option String
    → Option (PlanVersion × List Finding)
unfolding inject repr
close_with plan f none target = none
close_with plan f (some template) none = none
close_with plan f (some template) (some target) =
    if any (λ t. t.id == template.task.id) plan.tasks
    then none
    else some (
      record plan { tasks = inject template.task target plan.tasks },
      close_trace plan template target ∷ [],
    )

abbrev pub close_finding :
    List PreconditionTemplate → PlanVersion → Finding → Option (PlanVersion × List Finding)
close_finding templates plan f =
    if f.reason_code == "unverified_precondition"
    then close_with plan f (match_template f templates) f.task_id
    else none

-- `none` where no finding leads to a patch.
unfoldable pub apply_precondition_closer :
    List PreconditionTemplate → PlanVersion → List Finding → Option (PlanVersion × List Finding)
unfolding close_with match_template
apply_precondition_closer templates plan [] = none
apply_precondition_closer templates plan (f ∷ fs) =
    let rest = apply_precondition_closer templates plan fs in
    elim (close_finding templates plan f) [ some patch ↦ some patch | none ↦ rest ]
