-- ===== src/Gates/Base.antt =====
-- gates/base.py: a gate maps a plan to findings; it may raise. The builder of the findings of a gate,
-- which carry no heuristic family.
use planner_critic_engine.Prelude.{
  ℕ, String, Option, none, List, [], ◌∷◌, Result, text, str, Dict, dict_set, string_eq,
}
use planner_critic_engine.Schema.Plan.{PlanVersion, Task}
use planner_critic_engine.Types.{Finding, Severity, ReasonCode}

abbrev pub Gate : Type 0
Gate = PlanVersion → Result (List Finding)

-- `f"{gate}:{plan.id}:{plan.version}{rest}"`
unfoldable pub gate_id : String → PlanVersion → String → String
unfolding str
gate_id gate plan rest = text (gate ∷ ":" ∷ plan.id ∷ ":" ∷ str plan.version ∷ rest ∷ [])

-- The fields that every finding of a gate gives.
abbrev pub gate_finding :
    PlanVersion → String → Option String → Severity → ReasonCode → String → Finding
gate_finding plan id task_id severity code message = record {
  id = id;
  task_id = task_id;
  version = plan.version;
  heuristic_family = none;
  severity = severity;
  reason_code = code;
  message = message;
  edge_id = none;
  evidence_refs = [];
}

-- `{task.id: index for index, task in enumerate(tasks)}`, from a first index.
abbrev pub index_tasks : Dict String ℕ → ℕ → List Task → Dict String ℕ
index_tasks m n [] = m
index_tasks m n (t ∷ ts) = index_tasks (dict_set m t.id n) (ℕ.suc n) ts

abbrev pub id_to_index : PlanVersion → Dict String ℕ
id_to_index plan = index_tasks [] 0 plan.tasks

-- `{task.id: task for task in tasks}`
abbrev pub tasks_by_id : Dict String Task → List Task → Dict String Task
tasks_by_id m [] = m
tasks_by_id m (t ∷ ts) = tasks_by_id (dict_set m t.id t) ts
