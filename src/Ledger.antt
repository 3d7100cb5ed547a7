-- ===== src/Ledger.antt =====
-- ledger.py: the precondition ledger that survives the revisions. Time stamps and messages of the
-- diagnostics are left out.
use planner_critic_engine.Prelude.{
  String, Bool, true, false, not, Option, none, some, List, ◌++◌, map, Dict, dict_get, dict_set,
  ◌==◌, string_eq, contains, filter, concat_map, if◌then◌else◌,
}
use planner_critic_engine.Schema.Plan.{PlanVersion, Task, Precondition}

pub record LedgerEntry : Type 0 where
  pub satisfied : Bool
  pub satisfied_by : Option String
  pub verified_by : Option String

pub data DiagnosticType : Type 0 where
  redundantly_re_injected unverified dropped_from_compaction : DiagnosticType

pub record Diagnostic : Type 0 where
  pub type : DiagnosticType
  pub task_id : Option String
  pub key : String

pub record PreconditionLedger : Type 0 where
  pub entries : Dict String LedgerEntry
  pub diagnostics : List Diagnostic

unfoldable pub mark_satisfied :
    String → String → Option String → PreconditionLedger → PreconditionLedger
mark_satisfied key task_id verified_by l = record l {
  entries =
      dict_set l.entries key
        (record { satisfied = true; satisfied_by = some task_id; verified_by = verified_by });
}

abbrev pub is_satisfied : PreconditionLedger → String → Bool
is_satisfied l key = elim (dict_get l.entries key) [ none ↦ false | some e ↦ e.satisfied ]

-- `prec.fact or prec.description`
abbrev pub fact_key : Precondition → String
fact_key p = if p.fact == "" then p.description else p.fact

abbrev pub plan_keys : PlanVersion → List String
plan_keys plan = concat_map (λ t. map fact_key t.preconditions) plan.tasks

abbrev diagnose : PreconditionLedger → Task → Precondition → Diagnostic
diagnose l t p = record {
  type = if is_satisfied l (fact_key p) then redundantly_re_injected else unverified;
  task_id = some t.id;
  key = fact_key p;
}

-- The dropped keys are visited in the order of a set there; here in the order of the entries.
unfoldable pub process_plan : PlanVersion → PreconditionLedger → PreconditionLedger
process_plan plan l = record l {
  diagnostics =
      concat_map (λ t. map (diagnose l t) t.preconditions) plan.tasks
      ++ map (λ k. record { type = dropped_from_compaction; task_id = none; key = k })
          (filter (λ k. not (contains (plan_keys plan) k)) (map (λ e. e.0) l.entries));
}
