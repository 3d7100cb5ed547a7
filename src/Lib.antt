-- ===== src/Lib.antt =====
-- planner-critic-engine: the engine that drafts a plan with a planner, audits it with deterministic
-- gates and a critic, and revises, approves or escalates it.
--
-- A run (Loop.Controller, `run_loop` of src/planner_critic/loop/_controller.py) takes the first plan
-- of the planner and goes through at most `effective_cap` revisions. Each revision runs the gates
-- (Gates), may repair the order of the tasks or insert a task for an ungrounded precondition
-- (Loop.Reorder, Loop.Closer), may ask the critic (Loop.Audit), holds the findings against the
-- threshold of the bound posture (Approval), and otherwise runs the budgets and the tests of progress
-- (Loop.Judge) before it asks the planner for the next revision. It ends in an approval or an
-- escalation (Loop.Escalate).
--
-- Which file models what, with paths from the root of the repository:
-- - Schema: src/planner_critic/schema. Schema.Goal, Schema.Plan and Schema.Acceptance hold the records
--   of goal.py, plan.py and acceptance.py; Schema.Validate is what `PlanVersion.model_validate` tests.
-- - Types: types.py, findings, escalations and approved plans. Approval: approval.py. RunBudget:
--   run_budget.py. Ledger: ledger.py.
-- - Gates: src/planner_critic/gates, a module for each gate; Gates.run_deterministic_gates is the
--   function of that name. Gates.Positions, Gates.Clean, Gates.Groups and
--   Gates.Preconditions.Grounding hold lemmas on gates.
-- - Critique.Mode and Critique.Scope: critique/mode.py and critique/diff.py.
-- - Loop: src/planner_critic/loop. Loop.Budget, Loop.Regression, Loop.Convergence, Loop.Oscillation
--   and Loop.Histogram are the files of those names; Loop.Reorder and Loop.Closer are autofix.py;
--   Loop.Roles to Loop.Controller are _controller.py and the roles of roles.py. The other modules of
--   Loop hold theorems: Outcome and Induction a proof rule for the whole run, Reorder.Place,
--   Reorder.Lookup and Reorder.Sound the repair, Closer.Kept the closer, Spend the counters.
-- - Store: the in-memory store of src/planner_critic/store/base.py; Store.Diff its difference of
--   revisions, Store.Protocol the operations and laws of `PlanStore` that clients use. Store.Versions
--   is the migrations of store/versions.py, whose scripts are run by a parameter. The other modules of
--   Store hold theorems.
-- - Escalations: escalation.py, over any store of the protocol; its children hold theorems on
--   decisions, answers and patches.
-- - State: state.py. State.Holders is a step relation in which any plans call it, State.Waiting and
--   State.Conflicts hold theorems.
-- - Quota: quota.py. Posture: posture.py.
-- - Runtime: what happens to an approved plan. Runtime.Ttl is loop/ttl.py, Runtime.ReGate regate.py
--   with the request of probe/base.py, Runtime.Replan replan.py, Runtime.Recorder execution.py,
--   Runtime.Retries the classifier of run_budget.py, Runtime.Drift drift.py, Runtime.Shadow shadow.py.
-- - Rollback: rollback_synth.py; its children hold lemmas and theorems. Domains:
--   src/planner_critic/domains, a module for each pack.
-- - Engine: engine.py, which puts the quotas, the pack, the posture rules and the loop together.
-- - Prelude: Python's lists, sets, dicts, texts and exceptions as the other modules use them. A `set`
--   is a list without repetitions, a `dict` an association list in insertion order.
-- - Samples, and the modules of that name in the folders: runs on small inputs.
--
-- State is passed explicitly. `Session` holds the objects that the code mutates (the spend counters,
-- the run budget, the ledger), `Carry` the local variables that the loop carries from one revision to
-- the next. What may raise returns `Result`. The planner, the critic, SHA-256, the clock and the extra
-- gates are parameters; a planner or critic may answer differently at each call, which is why they
-- take the number of the revision.
--
-- Bounds. The rounds of `run_loop` are counted by the cap, as in the code. The loop of the topological
-- repair removes one id in each round, so it has as many rounds as there are ids; Kahn's loop takes a
-- node from the queue in each round, and has as many as there are tasks; the closure of the critique
-- scope pushes a task at most once.
--
-- The loop of `acquire` runs on fuel, since it waits for a clock; as many rounds as half seconds fit
-- into the deadline, and two, are enough. The loop of the topological order of a rollback takes a task
-- from the queue in each round and has as many rounds as there are tasks.
--
-- `lower` and `strip` know the ASCII characters only, where Python knows all of Unicode. Left out:
-- time stamps that nothing reads, log lines, the suggested fixes and display fields of findings, which
-- no modelled operation reads; the redactor, which the loop and the engine keep and do not use;
-- floating-point amounts, which are natural numbers of a small unit here, which leaves out negative
-- amounts and the statistics of the drift alert; the other back ends of the store, the servers, the
-- adapters, the notifier, the readers of YAML files and the transport to language models, which are
-- input and output; the policies, which the program opa or the Python interpreter evaluates; the
-- guardrail and the reports. Where a critical section of state.py reads the clock twice, both readings
-- are one here.
pub mod Prelude
pub mod Schema
pub mod Types
pub mod Gates
pub mod Approval
pub mod Store
pub mod Escalations
pub mod State
pub mod Quota
pub mod Posture
pub mod Runtime
pub mod Rollback
pub mod Domains
pub mod Engine
pub mod RunBudget
pub mod Ledger
pub mod Critique
pub mod Loop
pub mod Samples
