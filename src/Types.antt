-- ===== src/Types.antt =====
-- types.py and reason_codes.py: findings and what the loop hands out. A reason code is its text. Of a
-- finding the display fields (`suggested_fix`, `observed_state`), the drift fields of the critic and the
-- schema version are left out: no modelled operation reads them. Time stamps are left out too.
use planner_critic_engine.Prelude.{
  ℕ, String, Bool, true, false, Option, List, is_some, nat_eq, ◌≡◌, refl, Eq, eq_via,
}
use planner_critic_engine.Schema.Goal.{RiskTolerance}
use planner_critic_engine.Schema.Plan.{PlanVersion}

pub data Severity : Type 0 where
  blocker warning info : Severity

pub data HeuristicFamily : Type 0 where
  feasibility risk missing_steps unsafe_sequencing unverified_dependencies weak_rollback :
      HeuristicFamily

abbrev pub is_blocker : Severity → Bool
is_blocker blocker = true
is_blocker warning = false
is_blocker info = false

abbrev pub is_warning : Severity → Bool
is_warning blocker = false
is_warning warning = true
is_warning info = false

abbrev pub family_value : HeuristicFamily → String
family_value feasibility = "feasibility"
family_value risk = "risk"
family_value missing_steps = "missing_steps"
family_value unsafe_sequencing = "unsafe_sequencing"
family_value unverified_dependencies = "unverified_dependencies"
family_value weak_rollback = "weak_rollback"

abbrev pub ReasonCode : Type 0
ReasonCode = String

pub record Finding : Type 0 where
  pub id : String
  pub task_id : Option String
  pub version : ℕ
  pub heuristic_family : Option HeuristicFamily
  pub severity : Severity
  pub reason_code : ReasonCode
  pub message : String
  pub edge_id : Option String
  pub evidence_refs : List String

-- A finding of the critic carries a family; one of a gate does not.
abbrev pub is_llm_finding : Finding → Bool
is_llm_finding f = is_some f.heuristic_family

pub data EscalationStatus : Type 0 where
  open_ approved denied : EscalationStatus

abbrev pub is_open : EscalationStatus → Bool
is_open open_ = true
is_open approved = false
is_open denied = false

abbrev pub escalation_status_code : EscalationStatus → ℕ
escalation_status_code open_ = 0
escalation_status_code approved = 1
escalation_status_code denied = 2

abbrev pub escalation_status_of : ℕ → EscalationStatus
escalation_status_of ℕ.zero = open_
escalation_status_of (ℕ.suc ℕ.zero) = approved
escalation_status_of _ = denied

pub EscalationStatus-code :
    (s : EscalationStatus) → escalation_status_of (escalation_status_code s) ≡ s
EscalationStatus-code open_ = refl
EscalationStatus-code approved = refl
EscalationStatus-code denied = refl

instance abbrev pub escalation_status_eq : Eq EscalationStatus
escalation_status_eq = eq_via escalation_status_code escalation_status_of EscalationStatus-code

pub record Escalation : Type 0 where
  pub id : String
  pub plan_id : String
  pub version : ℕ
  pub blocker_finding_id : Option String
  pub question : String
  pub status : EscalationStatus
  pub resolution : Option String
  pub resolved_by : Option String

pub data FailureClass : Type 0 where
  planning execution : FailureClass

pub record ExecutionTrace : Type 0 where
  pub id : String
  pub plan_id : String
  pub task_id : String
  pub outcome : String
  pub failure_class : Option FailureClass
  pub linked_finding_id : Option String

pub record ApprovedPlan : Type 0 where
  pub plan : PlanVersion
  pub findings : List Finding
  pub risk_tolerance : RiskTolerance
