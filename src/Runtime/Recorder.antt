-- ===== src/Runtime/Recorder.antt =====
-- execution.py: the record of an execution in a store. The token of the new trace, a `uuid4`, is a
-- parameter.
use planner_critic_engine.Prelude.{
  String, Option, none, some, List, [], ◌∷◌, ◌++◌, map, append-nil, append_assoc, text, ◌==◌,
  string_eq, nat_eq, if◌then◌else◌, ◌≡◌, refl, ◌∙◌, sym, ap, arith,
}
use planner_critic_engine.Types.{
  Finding, ApprovedPlan, ExecutionTrace, FailureClass, planning, execution,
}
use planner_critic_engine.Store.Protocol.{PlanStore}

unfoldable pub classify_failure : Option Finding → FailureClass
classify_failure none = execution
classify_failure (some f) = planning

abbrev pub linked_id : Option Finding → Option String
linked_id none = none
linked_id (some f) = some f.id

unfoldable pub new_trace : String → ApprovedPlan → String → String → Option Finding → ExecutionTrace
unfolding classify_failure
new_trace token approved task_id outcome linked = record {
  id = text ("trace:" ∷ token ∷ []);
  plan_id = approved.plan.id;
  task_id = task_id;
  outcome = outcome;
  failure_class = if outcome == "failed" then some (classify_failure linked) else none;
  linked_finding_id = linked_id linked;
}

-- An execution: the token, the task, the outcome, and the finding that was missed, if any.
abbrev pub Execution : Type 0
Execution = String × (String × (String × Option Finding))

abbrev pub trace_of : ApprovedPlan → Execution → ExecutionTrace
unfolding new_trace
trace_of approved x = new_trace x.0 approved x.1.0 x.1.1.0 x.1.1.1

module _ {S : Type 0} ⦃store : PlanStore S⦄ where
  -- `record`
  unfoldable pub record_outcome :
      String → S → ApprovedPlan → String → String → Option Finding → S × ExecutionTrace
  unfolding new_trace
  record_outcome token s approved task_id outcome linked =
      let trace = new_trace token approved task_id outcome linked in
      (
        store.link (store.put_execution_trace s trace) approved.plan.id approved.plan.version
            trace.id,
        trace,
      )

  unfoldable pub get_traces : S → String → List ExecutionTrace
  get_traces s plan_id = store.get_execution_traces s plan_id

  unfoldable pub record_all : S → ApprovedPlan → List Execution → S
  unfolding record_outcome
  record_all s approved [] = s
  record_all s approved ((token, (task_id, (outcome, linked))) ∷ l) =
      record_all (record_outcome token s approved task_id outcome linked).0 approved l

  trace-read :
      (s : S) (approved : ApprovedPlan) (t : ExecutionTrace)
      → t.plan_id ≡ approved.plan.id
      → store.get_execution_traces
          (store.link (store.put_execution_trace s t) approved.plan.id approved.plan.version t.id)
          approved.plan.id
        ≡ store.get_execution_traces s approved.plan.id ++ t ∷ []
  trace-read s approved t own =
      store.link_apart (store.put_execution_trace s t) approved.plan.id approved.plan.version t.id
        approved.plan.id
      ∙ store.read_traces s t approved.plan.id
      ∙ ground (arith, string_eq.beq_iff t.plan_id approved.plan.id)

  -- After any executions of an approved plan its traces are those before, and one for each execution,
  -- in order.
  pub record_all-get_traces :
      (s : S) (approved : ApprovedPlan) (l : List Execution)
      → get_traces (record_all s approved l) approved.plan.id
        ≡ get_traces s approved.plan.id ++ map (trace_of approved) l
  unfolding record_all get_traces new_trace
  record_all-get_traces s approved [] =
      sym (append-nil (store.get_execution_traces s approved.plan.id))
  record_all-get_traces s approved (x ∷ l) =
      let t = trace_of approved x in
      let first = trace-read s approved t refl in
      record_all-get_traces
        (store.link (store.put_execution_trace s t) approved.plan.id approved.plan.version t.id)
        approved l
      ∙ ap (λ z. z ++ map (trace_of approved) l) first
      ∙ append_assoc (store.get_execution_traces s approved.plan.id) (t ∷ [])
          (map (trace_of approved) l)
