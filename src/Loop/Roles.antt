-- ===== src/Loop/Roles.antt =====
-- What the loop is given: its configuration and result (loop/_controller.py), and the planner and the
-- critic (roles.py), which are language models outside the repository. A role may answer differently at
-- each call: its functions take the number of the revision, and the loop makes at most one call of
-- each in a revision. The clock is read at a revision and a place in its body.
use planner_critic_engine.Prelude.{ℕ, String, Bool, true, false, Option, List}
use planner_critic_engine.Schema.Goal.{Goal}
use planner_critic_engine.Schema.Plan.{PlanVersion}
use planner_critic_engine.Types.{Finding, ReasonCode, Escalation, ApprovedPlan}
use planner_critic_engine.Critique.Mode.{CriticMode, deterministic_first}
use planner_critic_engine.Loop.Budget.{SpendState}
use planner_critic_engine.Loop.Oscillation.{Signature}
use planner_critic_engine.Loop.Histogram.{FamilyHistogram}
use planner_critic_engine.RunBudget.{RunBudget}
use planner_critic_engine.Ledger.{PreconditionLedger}

pub record LoopConfig : Type 0 where
  pub mode : CriticMode
  pub revision_cap : ℕ
  pub adaptive_revision_cap : Bool
  pub auto_repair : Bool
  pub precondition_closer : Bool
  pub oscillation_window : ℕ
  pub histogram_lag : ℕ
  pub converge_policy : String

abbrev pub default_config : LoopConfig
default_config = record {
  mode = deterministic_first;
  revision_cap = 3;
  adaptive_revision_cap = false;
  auto_repair = true;
  precondition_closer = true;
  oscillation_window = 4;
  histogram_lag = 2;
  converge_policy = "escalate";
}

-- What a call of the planner gives: an exception, something that is no plan, a plan.
pub data Reply : Type 0 where
  raised untyped : Reply
  answer : PlanVersion → Reply

pub record Planner : Type 0 where
  pub decompose : Goal → Reply
  pub revise : (revision : ℕ) → PlanVersion → List Finding → Reply

-- `none` is an exception; `audit_diff` is an optional method.
pub record Critic : Type 0 where
  pub audit : (revision : ℕ) → PlanVersion → List Finding → Option (List Finding)
  pub audit_diff :
      Option ((revision : ℕ) → PlanVersion → List Finding → List String → Option (List Finding))

pub data Status : Type 0 where
  approved escalated : Status

pub record LoopResult : Type 0 where
  pub status : Status
  pub plan : PlanVersion
  pub findings : List Finding
  pub reason_code : ReasonCode
  pub approved_plan : Option ApprovedPlan
  pub escalation : Option Escalation
  pub spend : Option SpendState

-- The mutable objects of a run.
pub record Session : Type 0 where
  pub spend : SpendState
  pub run_budget : Option RunBudget
  pub ledger : Option PreconditionLedger

-- The local variables that the body of the loop carries over.
pub record Carry : Type 0 where
  pub plan : PlanVersion
  pub prior_plan : Option PlanVersion
  pub prior_findings : List Finding
  pub sig_history : List Signature
  pub hist_history : List FamilyHistogram
