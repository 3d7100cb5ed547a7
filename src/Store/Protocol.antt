-- ===== src/Store/Protocol.antt =====
-- The protocol of a store that the escalation manager and the recorder of executions are written
-- against, with the laws that they rely on, and the store in memory as an instance.
use planner_critic_engine.Prelude.{
  ℕ, String, ◌&&◌, Option, none, some, List, [], ◌∷◌, ◌++◌, ap, Bool-cases, inl, inr, ==→≡, ◌≡◌,
  refl, ◌∙◌, ◌==◌, string_eq, nat_eq, pair_eq, dict_get-dict_set, if◌then◌else◌,
}
use planner_critic_engine.Schema.Plan.{PlanVersion}
use planner_critic_engine.Schema.Acceptance.{AcceptanceContract}
use planner_critic_engine.Types.{Finding, Escalation, ExecutionTrace}
use planner_critic_engine.Store
use planner_critic_engine.Store.Replay.{get-push}

pub record PlanStore (S : Type 0) : Type 0 where
  pub put_plan_version : S → PlanVersion → S
  pub get_plan : S → String → Option ℕ → Option PlanVersion
  pub list_plans : S → Option String → List PlanVersion
  pub put_findings : S → String → ℕ → List Finding → S
  pub get_findings : S → String → ℕ → List Finding
  pub put_escalation : S → Escalation → S
  pub get_escalation : S → String → Option Escalation
  pub put_execution_trace : S → ExecutionTrace → S
  pub get_execution_traces : S → String → List ExecutionTrace
  pub link : S → String → ℕ → String → S
  pub get_acceptance_contract : S → String → Option AcceptanceContract
  -- A written value is read back, and no other is touched.
  pub read_escalation :
      (s : S) (e : Escalation) (i : String)
      → get_escalation (put_escalation s e) i
        ≡ (if e.plan_id == i then some e else get_escalation s i)
  pub read_plan :
      (s : S) (p : PlanVersion) (i : String) (v : ℕ)
      → get_plan (put_plan_version s p) i (some v)
        ≡ (if p.id == i && p.version == v then some p else get_plan s i (some v))
  -- Plans, findings and escalations are apart.
  pub plan_apart :
      (s : S) (p : PlanVersion) (i : String)
      → get_escalation (put_plan_version s p) i ≡ get_escalation s i
  pub findings_apart :
      (s : S) (j : String) (v : ℕ) (l : List Finding) (i : String)
      → get_escalation (put_findings s j v l) i ≡ get_escalation s i
  pub findings_keep_plans :
      (s : S) (j : String) (v : ℕ) (l : List Finding) (i : String) (w : Option ℕ)
      → get_plan (put_findings s j v l) i w ≡ get_plan s i w
  -- A trace joins the end of those of its plan.
  pub read_traces :
      (s : S) (t : ExecutionTrace) (i : String)
      → get_execution_traces (put_execution_trace s t) i
        ≡ (if t.plan_id == i then get_execution_traces s i ++ t ∷ [] else get_execution_traces s i)
  pub link_apart :
      (s : S) (j : String) (v : ℕ) (token : String) (i : String)
      → get_execution_traces (link s j v token) i ≡ get_execution_traces s i

pub plan_read :
    (s : Store.InMemoryStore) (p : PlanVersion) (i : String) (v : ℕ)
    → Store.get_plan (Store.put_plan_version s p) i (some v)
      ≡ (if p.id == i && p.version == v then some p else Store.get_plan s i (some v))
unfolding Store.get_plan
plan_read s p i v = dict_get-dict_set s.plans (p.id, p.version) (i, v) p

pub keeps_plans :
    (s : Store.InMemoryStore) (j : String) (v : ℕ) (l : List Finding) (i : String) (w : Option ℕ)
    → Store.get_plan (Store.put_findings s j v l) i w ≡ Store.get_plan s i w
unfolding Store.get_plan
keeps_plans s j v l i none = refl
keeps_plans s j v l i (some w) = refl

pub traces_read :
    (s : Store.InMemoryStore) (t : ExecutionTrace) (i : String)
    → Store.get_execution_traces (Store.put_execution_trace s t) i ≡ (
        if t.plan_id == i
        then Store.get_execution_traces s i ++ t ∷ []
        else Store.get_execution_traces s i)
traces_read s t i = elim (Bool-cases (t.plan_id == i)) [
  | inr other ↦ get-push s.traces t.plan_id i t ∙ rw other refl
  | inl same ↦
      let here : t.plan_id ≡ i = ==→≡ t.plan_id i same in
      get-push s.traces t.plan_id i t
      ∙ rw same (ap (λ j. Store.get_execution_traces s j ++ t ∷ []) here)
]

instance abbrev pub memory_store : PlanStore Store.InMemoryStore
memory_store = record {
  put_plan_version = Store.put_plan_version;
  get_plan = Store.get_plan;
  list_plans = Store.list_plans;
  put_findings = Store.put_findings;
  get_findings = Store.get_findings;
  put_escalation = Store.put_escalation;
  get_escalation = Store.get_escalation;
  put_execution_trace = Store.put_execution_trace;
  get_execution_traces = Store.get_execution_traces;
  link = Store.link;
  get_acceptance_contract = Store.get_acceptance_contract;
  read_escalation = λ s e i. dict_get-dict_set s.escalations e.plan_id i e;
  read_plan = plan_read;
  plan_apart = λ s p i. refl;
  findings_apart = λ s j v l i. refl;
  findings_keep_plans = keeps_plans;
  read_traces = traces_read;
  link_apart = λ s j v token i. refl;
}
