-- ===== src/Store/Replay.antt =====
-- The store as its client sees it: functions from keys to what was written last, over any sequence of
-- calls that write.
use planner_critic_engine.Prelude.{
  ℕ, String, Bool, true, false, Option, some, none, List, [], ◌∷◌, ◌++◌, ◌≡◌, refl, ◌∙◌, ap, arith,
  Eq, ◌==◌, string_eq, nat_eq, pair_eq, Dict, dict_get, dict_set, dict_push, dict_get-dict_set,
  contains, contains-append, if◌then◌else◌, Bool-cases, inl, inr, fun_ext,
}
use planner_critic_engine.Schema.Plan.{PlanVersion}
use planner_critic_engine.Schema.Acceptance.{AcceptanceContract}
use planner_critic_engine.Types.{Finding, Escalation, ExecutionTrace}
use planner_critic_engine.Store

pub data Op : Type 0 where
  put_plan_version : PlanVersion → Op
  put_findings : String → ℕ → List Finding → Op
  put_escalation : Escalation → Op
  put_execution_trace : ExecutionTrace → Op
  link : String → ℕ → String → Op
  put_replan_link : Store.ReplanLink → Op
  put_missed_critique : String → String → Op
  put_plan_signature : String → ℕ → String → Op
  put_acceptance_contract : AcceptanceContract → Op

abbrev pub call : Op → Store.InMemoryStore → Store.InMemoryStore
call (put_plan_version p) s = Store.put_plan_version s p
call (put_findings i v l) s = Store.put_findings s i v l
call (put_escalation e) s = Store.put_escalation s e
call (put_execution_trace t) s = Store.put_execution_trace s t
call (link i v t) s = Store.link s i v t
call (put_replan_link l) s = Store.put_replan_link s l
call (put_missed_critique i b) s = Store.put_missed_critique s i b
call (put_plan_signature i v x) s = Store.put_plan_signature s i v x
call (put_acceptance_contract c) s = Store.put_acceptance_contract s c

unfoldable pub run : List Op → Store.InMemoryStore → Store.InMemoryStore
run [] s = s
run (o ∷ ops) s = run ops (call o s)

-- What the readers that take a full key give, and the stored links and signatures, as functions.
pub record Memory : Type 0 where
  pub plan_at : Store.Revision → Option PlanVersion
  pub findings_at : Store.Revision → List Finding
  pub escalation_of : String → Option Escalation
  pub traces_of : String → List ExecutionTrace
  pub is_linked : Store.Revision × String → Bool
  pub replan_link_at : Store.Revision → Option Store.ReplanLink
  pub missed_critique_of : String → Option String
  pub signature_at : Store.Revision → Option String
  pub contract_of : String → Option AcceptanceContract

abbrev pub view : Store.InMemoryStore → Memory
view s = record {
  plan_at = λ r. Store.get_plan s r.0 (some r.1);
  findings_at = λ r. Store.get_findings s r.0 r.1;
  escalation_of = Store.get_escalation s;
  traces_of = Store.get_execution_traces s;
  is_linked = contains s.links;
  replan_link_at = λ r. Store.get_replan_link s r.0 r.1;
  missed_critique_of = Store.get_missed_critique s;
  signature_at = dict_get s.signatures;
  contract_of = Store.get_acceptance_contract s;
}

abbrev pub blank : Memory
blank = record {
  plan_at = λ _. none;
  findings_at = λ _. [];
  escalation_of = λ _. none;
  traces_of = λ _. [];
  is_linked = λ _. false;
  replan_link_at = λ _. none;
  missed_critique_of = λ _. none;
  signature_at = λ _. none;
  contract_of = λ _. none;
}

module _ {ℓ κ} {K : Type ℓ} {B : Type κ} ⦃e : Eq K⦄ where
  abbrev pub update : (K → B) → K → B → K → B
  update f k b j = if k == j then b else f j

-- The same call on the functions.
abbrev pub write : Op → Memory → Memory
write (put_plan_version p) m = record m { plan_at = update m.plan_at (p.id, p.version) (some p) }
write (put_findings i v l) m = record m { findings_at = update m.findings_at (i, v) l }
write (put_escalation e) m = record m { escalation_of = update m.escalation_of e.plan_id (some e) }
write (put_execution_trace t) m = record m {
  traces_of = update m.traces_of t.plan_id (m.traces_of t.plan_id ++ t ∷ []);
}
write (link i v t) m = record m { is_linked = update m.is_linked ((i, v), t) true }
write (put_replan_link l) m = record m {
  replan_link_at = update m.replan_link_at (l.plan_id, l.version) (some l);
}
write (put_missed_critique i b) m = record m {
  missed_critique_of = update m.missed_critique_of i (some b);
}
write (put_plan_signature i v x) m = record m {
  signature_at = update m.signature_at (i, v) (some x);
}
write (put_acceptance_contract c) m = record m {
  contract_of = update m.contract_of c.goal_id (some c);
}

unfoldable pub replay : List Op → Memory → Memory
replay [] m = m
replay (o ∷ ops) m = replay ops (write o m)

module _ {ℓ κ} {K : Type ℓ} {V : Type κ} ⦃e : Eq K⦄ where
  get-set :
      (m : Dict K V) (k : K) (v : V) → dict_get (dict_set m k v) ≡ update (dict_get m) k (some v)
  get-set m k v = fun_ext λ j. dict_get-dict_set m k j v

  pub get-push :
      (m : Dict K (List V)) (k j : K) (v : V)
      → Store.or_empty (dict_get (dict_push m k v) j)
        ≡ update (λ i. Store.or_empty (dict_get m i)) k (Store.or_empty (dict_get m k) ++ v ∷ []) j
  get-push [] k j v = ground arith
  get-push ((i, l) ∷ m) k j v =
      ground (arith, get-push m k j v, e.beq_iff k j, e.beq_iff i k, e.beq_iff i j)

module _ {ℓ} {K : Type ℓ} ⦃e : Eq K⦄ where
  contains-add :
      (l : List K) (k j : K)
      → contains (if contains l k then l else l ++ k ∷ []) j ≡ update (contains l) k true j
  contains-add l k j = elim (Bool-cases (k == j)) [
    | inl same ↦ ground (arith, e.beq_iff k j, contains-append l (k ∷ []) j)
    | inr other ↦ ground (arith, contains-append l (k ∷ []) j)
  ]

view-call : (o : Op) (s : Store.InMemoryStore) → view (call o s) ≡ write o (view s)
unfolding Store.get_plan
view-call (put_plan_version p) s =
    ap (λ f. record (view s) { plan_at = f }) (get-set s.plans (p.id, p.version) p)
view-call (put_findings i v l) s =
    ap (λ f. record (view s) { findings_at = f })
      (fun_ext λ r. ap Store.or_empty (dict_get-dict_set s.findings (i, v) r l) ∙ ground arith)
view-call (put_escalation x) s =
    ap (λ f. record (view s) { escalation_of = f }) (get-set s.escalations x.plan_id x)
view-call (put_execution_trace t) s =
    ap (λ f. record (view s) { traces_of = f }) (fun_ext λ j. get-push s.traces t.plan_id j t)
view-call (link i v t) s =
    ap (λ f. record (view s) { is_linked = f }) (fun_ext λ j. contains-add s.links ((i, v), t) j)
view-call (put_replan_link l) s =
    ap (λ f. record (view s) { replan_link_at = f })
      (get-set s.replan_links (l.plan_id, l.version) l)
view-call (put_missed_critique i b) s =
    ap (λ f. record (view s) { missed_critique_of = f }) (get-set s.missed_critiques i b)
view-call (put_plan_signature i v x) s =
    ap (λ f. record (view s) { signature_at = f }) (get-set s.signatures (i, v) x)
view-call (put_acceptance_contract c) s =
    ap (λ f. record (view s) { contract_of = f }) (get-set s.contracts c.goal_id c)

-- Any sequence of writing calls reads, by the readers of `view`, as the replay of the calls on functions.
pub run_refines : (ops : List Op) (s : Store.InMemoryStore) → view (run ops s) ≡ replay ops (view s)
unfolding run replay
run_refines [] s = refl
run_refines (o ∷ ops) s = run_refines ops (call o s) ∙ ap (replay ops) (view-call o s)

-- From the empty store on, the readers of `view` give what the replay of the calls on empty functions gives.
pub run-empty_store : (ops : List Op) → view (run ops Store.empty_store) ≡ replay ops blank
unfolding Store.get_plan
run-empty_store ops = run_refines ops Store.empty_store
