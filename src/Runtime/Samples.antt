-- ===== src/Runtime/Samples.antt =====
-- The theorems on the run time of an approved plan at small inputs.
use planner_critic_engine.Prelude.{
  ◌-◌, ◌≤◌, String, Bool, true, false, none, some, List, [], ◌∷◌, ◌++◌, map, all, ok, err,
  validation_error, ◌⊎◌, length, ◌≡◌, refl, ◌==◌, string_eq,
}
use planner_critic_engine.Schema.Goal.{balanced}
use planner_critic_engine.Schema.Plan.{Task, EnvProbe, Precondition}
use planner_critic_engine.Types.{ApprovedPlan, ExecutionTrace}
use planner_critic_engine.Store.{empty_store}
use planner_critic_engine.Store.Protocol.{memory_store}
use planner_critic_engine.Runtime.Recorder.{
  Execution, trace_of, get_traces, record_all, record_all-get_traces,
}
use planner_critic_engine.Runtime.Retries.{
  ReplanClassifier, classify_all, retry_answers, classify_all-retries,
}
use planner_critic_engine.Runtime.ReGate.{
  ReGateResult, before_each_step, find_task, tally, check_preconditions,
}
use planner_critic_engine.Runtime.ReGate.Summary.{can_run, Tells, check_preconditions-summary}
use planner_critic_engine.Loop.Samples.{task, ordered}

abbrev approved_plan : ApprovedPlan
approved_plan = record { plan = ordered; findings = []; risk_tolerance = balanced }

abbrev executions : List Execution
executions = ("t1", ("a", ("ok", none))) ∷ ("t2", ("b", ("failed", none))) ∷ []

record_all-get_traces_example :
    get_traces (record_all empty_store approved_plan executions) "plan-1"
    ≡ get_traces empty_store "plan-1" ++ map (trace_of approved_plan) executions
record_all-get_traces_example = record_all-get_traces empty_store approved_plan executions

abbrev timeout : ExecutionTrace
timeout = record {
  id = "t";
  plan_id = "plan-1";
  task_id = "a";
  outcome = "Timeout";
  failure_class = none;
  linked_finding_id = none;
}

abbrev one_retry : ReplanClassifier
one_retry = record { step_max_retries = 1; step_retries = [] }

classify_all-retries_example :
    length (retry_answers "a" (classify_all one_retry (timeout ∷ timeout ∷ timeout ∷ []))) ≤ 1 - 0
classify_all-retries_example = classify_all-retries one_retry "a" (timeout ∷ timeout ∷ timeout ∷ [])

abbrev probe : String → EnvProbe
probe query = record { kind = "env_var"; query = query; expected = "1" }

abbrev fact : String → Precondition
fact query = record {
  description = query;
  fact = query;
  established_by = none;
  probe = some (probe query);
}

abbrev guarded : Task
guarded = record (task "a") {
  preconditions = fact "UP" ∷ fact "DOWN" ∷ record (fact "X") { probe = none } ∷ [];
}

abbrev guarded_plan : ApprovedPlan
guarded_plan = record approved_plan { plan = record ordered { tasks = guarded ∷ [] } }

abbrev probes : EnvProbe → Bool
probes p = p.query == "UP"

check_preconditions-summary_example :
    (all (can_run probes) guarded.preconditions ≡ true)
      × ((r : ReGateResult) × (check_preconditions probes guarded_plan "a" before_each_step ≡ ok r)
          × Tells probes guarded.preconditions r)
    ⊎ (all (can_run probes) guarded.preconditions ≡ false)
      × (check_preconditions probes guarded_plan "a" before_each_step ≡ err validation_error)
unfolding find_task
check_preconditions-summary_example =
    check_preconditions-summary probes guarded_plan "a" guarded refl

-- A probe of an unknown kind raises.
abbrev odd_plan : ApprovedPlan
odd_plan = record approved_plan {
  plan = record ordered {
    tasks =
        record guarded {
          preconditions =
              record (fact "UP") { probe = some (record (probe "UP") { kind = "ping" }) } ∷ [];
        }
        ∷ [];
  };
}

odd_probe : check_preconditions probes odd_plan "a" before_each_step ≡ err validation_error
unfolding check_preconditions tally find_task
odd_probe = refl
