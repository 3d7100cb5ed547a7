-- ===== src/Schema/Plan.antt =====
-- schema/plan.py: the plan and its parts, as the typed schema has them. The time stamp `created_at` of a
-- plan is left out: no operation reads it.
use planner_critic_engine.Prelude.{
  ℕ, zero, suc, String, Bool, true, false, Option, List, ◌≡◌, refl, ◌||◌, Eq, ◌==◌, eq_via, nat_eq,
  string_eq, option_eq, list_eq, pair_eq,
}

abbrev pub plan_schema_version : String
plan_schema_version = "0.1.0"

pub data DependencyKind : Type 0 where
  hard soft : DependencyKind

pub data JoinMode : Type 0 where
  all any quorum : JoinMode

pub data BranchKind : Type 0 where
  fan_out fan_in : BranchKind

pub data RiskClass : Type 0 where
  low medium high critical : RiskClass

abbrev pub is_hard : DependencyKind → Bool
is_hard hard = true
is_hard soft = false

abbrev pub is_high_risk : RiskClass → Bool
is_high_risk low = false
is_high_risk medium = false
is_high_risk high = true
is_high_risk critical = true

abbrev pub kind_value : DependencyKind → String
kind_value hard = "hard"
kind_value soft = "soft"

abbrev pub join_value : JoinMode → String
join_value all = "all"
join_value any = "any"
join_value quorum = "quorum"

abbrev pub branch_kind_value : BranchKind → String
branch_kind_value fan_out = "fan_out"
branch_kind_value fan_in = "fan_in"

abbrev pub risk_value : RiskClass → String
risk_value low = "low"
risk_value medium = "medium"
risk_value high = "high"
risk_value critical = "critical"

abbrev pub risk_code : RiskClass → ℕ
risk_code low = 0
risk_code medium = 1
risk_code high = 2
risk_code critical = 3

abbrev pub risk_of : ℕ → RiskClass
risk_of zero = low
risk_of (suc zero) = medium
risk_of (suc (suc zero)) = high
risk_of _ = critical

pub RiskClass-code : (r : RiskClass) → risk_of (risk_code r) ≡ r
RiskClass-code low = refl
RiskClass-code medium = refl
RiskClass-code high = refl
RiskClass-code critical = refl

instance abbrev pub risk_class_eq : Eq RiskClass
risk_class_eq = eq_via risk_code risk_of RiskClass-code

pub record VerificationStep : Type 0 where
  pub what : String
  pub how : String
  pub expected : String

pub record RollbackStep : Type 0 where
  pub trigger : String
  pub action : String
  pub safety_guard : String
  pub restores_state : Option (List String)
  pub restoration_evidence : Option String

pub record EnvProbe : Type 0 where
  pub kind : String
  pub query : String
  pub expected : String

pub record Precondition : Type 0 where
  pub description : String
  pub fact : String
  pub established_by : Option String
  pub probe : Option EnvProbe

pub record Task : Type 0 where
  pub id : String
  pub description : String
  pub action : String
  pub target : String
  pub parallel_group : Option String
  pub preconditions : List Precondition
  pub verification : Option VerificationStep
  pub rollback : Option RollbackStep
  pub risk_class : RiskClass
  pub blast_radius : String
  pub satisfies : Option String

pub record Dependency : Type 0 where
  pub from_task : String
  pub to_task : String
  pub kind : DependencyKind
  pub reason : String

pub record Branch : Type 0 where
  pub id : String
  pub kind : BranchKind
  pub tasks : List String
  pub join : JoinMode

pub record PlanVersion : Type 0 where
  pub id : String
  pub goal_id : String
  pub plan_schema_version : String
  pub version : ℕ
  pub parent_version : Option String
  pub tasks : List Task
  pub dependencies : List Dependency
  pub branches : List Branch

-- Equality of models is equality of their fields.
instance abbrev pub verification_eq : Eq VerificationStep
verification_eq =
    eq_via {B = String × (String × String)} (λ v. (v.what, (v.how, v.expected)))
      (λ t. record { what = t.0; how = t.1.0; expected = t.1.1 }) (λ v. refl)

instance abbrev pub rollback_eq : Eq RollbackStep
rollback_eq =
    eq_via {B = String × (String × (String × (Option (List String) × Option String)))}
      (λ r. (r.trigger, (r.action, (r.safety_guard, (r.restores_state, r.restoration_evidence)))))
      (λ t. record {
        trigger = t.0;
        action = t.1.0;
        safety_guard = t.1.1.0;
        restores_state = t.1.1.1.0;
        restoration_evidence = t.1.1.1.1;
      })
      (λ r. refl)

instance abbrev pub probe_eq : Eq EnvProbe
probe_eq =
    eq_via {B = String × (String × String)} (λ p. (p.kind, (p.query, p.expected)))
      (λ t. record { kind = t.0; query = t.1.0; expected = t.1.1 }) (λ p. refl)

instance abbrev pub precondition_eq : Eq Precondition
precondition_eq =
    eq_via {B = String × (String × (Option String × Option EnvProbe))}
      (λ p. (p.description, (p.fact, (p.established_by, p.probe))))
      (λ t. record { description = t.0; fact = t.1.0; established_by = t.1.1.0; probe = t.1.1.1 })
      (λ p. refl)

abbrev pub Checks : Type 0
Checks = Option VerificationStep × (Option RollbackStep × (RiskClass × (String × Option String)))

instance abbrev pub task_eq : Eq Task
task_eq =
    eq_via
      {B = String × (String × (String × (String × (Option String × (List Precondition × Checks)))))}
      (λ t. (
        t.id,
        (
          t.description,
          (
            t.action,
            (
              t.target,
              (
                t.parallel_group,
                (
                  t.preconditions,
                  (t.verification, (t.rollback, (t.risk_class, (t.blast_radius, t.satisfies)))),
                ),
              ),
            ),
          ),
        ),
      ))
      (λ t. record {
        id = t.0;
        description = t.1.0;
        action = t.1.1.0;
        target = t.1.1.1.0;
        parallel_group = t.1.1.1.1.0;
        preconditions = t.1.1.1.1.1.0;
        verification = t.1.1.1.1.1.1.0;
        rollback = t.1.1.1.1.1.1.1.0;
        risk_class = t.1.1.1.1.1.1.1.1.0;
        blast_radius = t.1.1.1.1.1.1.1.1.1.0;
        satisfies = t.1.1.1.1.1.1.1.1.1.1;
      })
      (λ t. refl)

-- The gates' own test `_is_high_blast`, the same in five of them.
abbrev pub is_high_blast : Task → Bool
is_high_blast t =
    is_high_risk t.risk_class || t.blast_radius == "high" || t.blast_radius == "critical"
