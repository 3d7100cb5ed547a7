-- ===== src/Store.antt =====
-- store/base.py: the versioned plan store in memory, as a record of dictionaries, and the protocol of a
-- store. The two durable back ends are input and output of SQLite and PostgreSQL.
pub mod Diff
pub mod Replay
pub mod Latest
pub mod History
pub mod Protocol
pub mod Versions
mod Samples
use planner_critic_engine.Prelude.{
  ℕ, String, Bool, not, ◌&&◌, ◌||◌, Option, none, some, List, [], ◌∷◌, ◌++◌, map, Dict, dict_get,
  dict_set, dict_push, ◌==◌, string_eq, nat_eq, pair_eq, contains, filter, ltb, Ord, string_ord,
  sorted, if◌then◌else◌,
}
use planner_critic_engine.Schema.Plan.{PlanVersion}
use planner_critic_engine.Schema.Acceptance.{AcceptanceContract}
use planner_critic_engine.Types.{Finding, Escalation, ExecutionTrace}
use Diff.{PlanDiff, compute_diff}

-- store/replan_trace.py
pub data LinkPolicy : Type 0 where
  patch restart : LinkPolicy

pub record ReplanLink : Type 0 where
  pub plan_id : String
  pub version : ℕ
  pub parent_plan_id : String
  pub parent_version : ℕ
  pub policy : LinkPolicy
  pub partial_execution : Option String

abbrev pub Revision : Type 0
Revision = String × ℕ

pub record InMemoryStore : Type 0 where
  pub plans : Dict Revision PlanVersion
  pub findings : Dict Revision (List Finding)
  pub escalations : Dict String Escalation
  pub traces : Dict String (List ExecutionTrace)
  pub links : List (Revision × String)
  pub replan_links : Dict Revision ReplanLink
  pub missed_critiques : Dict String String
  pub signatures : Dict Revision String
  pub contracts : Dict String AcceptanceContract

abbrev pub empty_store : InMemoryStore
empty_store = record {
  plans = [];
  findings = [];
  escalations = [];
  traces = [];
  links = [];
  replan_links = [];
  missed_critiques = [];
  signatures = [];
  contracts = [];
}

abbrev pub put_plan_version : InMemoryStore → PlanVersion → InMemoryStore
put_plan_version s plan = record s { plans = dict_set s.plans (plan.id, plan.version) plan }

abbrev pub put_findings : InMemoryStore → String → ℕ → List Finding → InMemoryStore
put_findings s plan_id version l = record s { findings = dict_set s.findings (plan_id, version) l }

-- `m.get(k, [])`
abbrev pub or_empty {ℓ} : {A : Type ℓ} → Option (List A) → List A
or_empty none = []
or_empty (some l) = l

abbrev pub get_findings : InMemoryStore → String → ℕ → List Finding
get_findings s plan_id version = or_empty (dict_get s.findings (plan_id, version))

-- `[v for (pid, v) in self._plans if pid == plan_id]`
abbrev pub versions_of {ℓ} : {A : Type ℓ} → Dict Revision A → String → List ℕ
versions_of m plan_id = map (λ e. e.0.1) (filter (λ e. e.0.0 == plan_id) m)

-- `max(versions)`, over a first version
abbrev pub maximum : ℕ → List ℕ → ℕ
maximum v [] = v
maximum v (w ∷ ws) = maximum (if ltb v w then w else v) ws

abbrev pub latest : InMemoryStore → String → List ℕ → Option PlanVersion
latest s plan_id [] = none
latest s plan_id (v ∷ vs) = dict_get s.plans (plan_id, maximum v vs)

unfoldable pub get_plan : InMemoryStore → String → Option ℕ → Option PlanVersion
get_plan s plan_id none = latest s plan_id (versions_of s.plans plan_id)
get_plan s plan_id (some v) = dict_get s.plans (plan_id, v)

-- `key=lambda p: (p.id, -p.version)`
abbrev pub newest_first : Ord PlanVersion
newest_first = record {
  less = λ p q. string_ord.less p.id q.id || (p.id == q.id && ltb q.version p.version);
}

abbrev of_goal : Option String → PlanVersion → Bool
of_goal none p = Bool.true
of_goal (some g) p = p.goal_id == g

unfoldable pub list_plans : InMemoryStore → Option String → List PlanVersion
unfolding sorted
list_plans s goal_id = sorted ⦃o = newest_first⦄ (filter (of_goal goal_id) (map (λ e. e.1) s.plans))

abbrev diff_of : Option PlanVersion → Option PlanVersion → Option PlanDiff
unfolding compute_diff
diff_of (some a) (some b) = some (compute_diff a b)
diff_of _ _ = none

pub diff : InMemoryStore → String → ℕ → ℕ → Option PlanDiff
unfolding compute_diff
diff s plan_id a b = diff_of (dict_get s.plans (plan_id, a)) (dict_get s.plans (plan_id, b))

abbrev pub put_escalation : InMemoryStore → Escalation → InMemoryStore
put_escalation s e = record s { escalations = dict_set s.escalations e.plan_id e }

abbrev pub get_escalation : InMemoryStore → String → Option Escalation
get_escalation s plan_id = dict_get s.escalations plan_id

abbrev pub put_execution_trace : InMemoryStore → ExecutionTrace → InMemoryStore
put_execution_trace s t = record s { traces = dict_push s.traces t.plan_id t }

abbrev pub get_execution_traces : InMemoryStore → String → List ExecutionTrace
get_execution_traces s plan_id = or_empty (dict_get s.traces plan_id)

-- `self._links.add(…)`
abbrev pub link : InMemoryStore → String → ℕ → String → InMemoryStore
link s plan_id version trace_id =
    let l : Revision × String = ((plan_id, version), trace_id) in
    record s { links = if contains s.links l then s.links else s.links ++ l ∷ [] }

abbrev pub put_replan_link : InMemoryStore → ReplanLink → InMemoryStore
put_replan_link s l = record s { replan_links = dict_set s.replan_links (l.plan_id, l.version) l }

abbrev pub get_replan_link : InMemoryStore → String → ℕ → Option ReplanLink
get_replan_link s plan_id version = dict_get s.replan_links (plan_id, version)

abbrev pub get_child_replan_links : InMemoryStore → String → ℕ → List ReplanLink
get_child_replan_links s parent version =
    filter (λ l. l.parent_plan_id == parent && l.parent_version == version)
      (map (λ e. e.1) s.replan_links)

abbrev pub put_missed_critique : InMemoryStore → String → String → InMemoryStore
put_missed_critique s plan_id body = record s {
  missed_critiques = dict_set s.missed_critiques plan_id body;
}

abbrev pub get_missed_critique : InMemoryStore → String → Option String
get_missed_critique s plan_id = dict_get s.missed_critiques plan_id

abbrev pub put_plan_signature : InMemoryStore → String → ℕ → String → InMemoryStore
put_plan_signature s plan_id version signature = record s {
  signatures = dict_set s.signatures (plan_id, version) signature;
}

-- `key=lambda x: -x[0]`
abbrev pub newest_signature : Ord (ℕ × String)
newest_signature = record { less = λ x y. ltb y.0 x.0 }

pub get_plan_signatures : InMemoryStore → String → List (ℕ × String)
unfolding sorted
get_plan_signatures s plan_id =
    sorted ⦃o = newest_signature⦄
      (map (λ e. (e.0.1, e.1)) (filter (λ e. e.0.0 == plan_id) s.signatures))

abbrev pub put_acceptance_contract : InMemoryStore → AcceptanceContract → InMemoryStore
put_acceptance_contract s c = record s { contracts = dict_set s.contracts c.goal_id c }

abbrev pub get_acceptance_contract : InMemoryStore → String → Option AcceptanceContract
get_acceptance_contract s goal_id = dict_get s.contracts goal_id
