-- ===== src/Engine.antt =====
-- engine.py: the facade that binds roles, configuration, packs and budgets, and plans goals. The run
-- budget and the ledger are objects that an engine keeps from one goal to the next. The redactor and the
-- prompt of a pack are read by no modelled operation; the parameters of the loop and the pattern search
-- and context of the posture are parameters here too.
pub mod Quotas
mod Samples
use planner_critic_engine.Prelude.{
  ℕ, String, Bool, true, false, not, ◌&&◌, ◌||◌, Option, none, some, List, [], ◌∷◌, ◌++◌, Result,
  ok, err, value_error, ◌>>=◌, if◌then◌else◌,
}
use planner_critic_engine.Schema.Goal.{Goal, balanced}
use planner_critic_engine.Schema.Plan.{PlanVersion}
use planner_critic_engine.Types.{Finding}
use planner_critic_engine.Gates.Base.{Gate}
use planner_critic_engine.Gates.{run_deterministic_gates}
use planner_critic_engine.RunBudget.{RunBudget}
use planner_critic_engine.Ledger.{PreconditionLedger}
use planner_critic_engine.Quota.{BlastRadiusQuotaConfig, quota_gate}
use planner_critic_engine.Posture.{PostureRule, Context, resolve}
use planner_critic_engine.Loop.Budget.{fresh_spend}
use planner_critic_engine.Loop.Roles.{Planner, Critic, LoopConfig, LoopResult, Session}
use planner_critic_engine.Loop.Controller.{run_loop}

pub record GatesConfig : Type 0 where
  pub precondition_closer : Bool
  pub verification_ordering : Bool
  pub rollback_credible : Bool
  pub requirement_trace : Bool

unfoldable pub validate : GatesConfig → Result {0} Unit
validate c =
    if c.precondition_closer || c.verification_ordering || c.rollback_credible
      || c.requirement_trace
    then ok tt
    else err value_error

-- domains/base.py: what the engine reads of a pack.
pub record DomainPack : Type 0 where
  pub name : String
  pub gate_evaluators : List Gate

pub record Engine : Type 0 where
  pub planner : Planner
  pub critic : Critic
  pub config : LoopConfig
  pub domain_gates : List Gate
  pub posture_rules : Option (List PostureRule)
  pub run_budget : Option RunBudget
  pub precondition_ledger : Option PreconditionLedger

abbrev pub pack_gates : Option DomainPack → List Gate
pack_gates none = []
pack_gates (some pack) = pack.gate_evaluators

-- `BlastRadiusQuotaGate(quota_config)`: the posture is the default one.
abbrev pub quota_gates : Option BlastRadiusQuotaConfig → List Gate
quota_gates none = []
quota_gates (some q) = quota_gate q balanced ∷ []

-- `Engine.__init__`
unfoldable pub make_engine :
    Planner
    → Critic
    → LoopConfig
    → Option DomainPack
    → Option (List PostureRule)
    → Option RunBudget
    → Option PreconditionLedger
    → Option BlastRadiusQuotaConfig
    → GatesConfig
    → Result Engine
unfolding validate
make_engine planner critic config pack rules run_budget ledger quota gates_config =
    validate gates_config >>= λ _. ok (record {
      planner = planner;
      critic = critic;
      config = config;
      domain_gates = pack_gates pack ++ quota_gates quota;
      posture_rules = rules;
      run_budget = run_budget;
      precondition_ledger = ledger;
    })

unfoldable pub run_domain_gates : Engine → PlanVersion → Result (List Finding)
unfolding run_deterministic_gates
run_domain_gates engine plan = run_deterministic_gates engine.domain_gates plan

abbrev pub session_of : Engine → Session
session_of engine = record {
  spend = fresh_spend;
  run_budget = engine.run_budget;
  ledger = engine.precondition_ledger;
}

module _ (search : String → String → Bool) where
  abbrev pub with_posture : Option (List PostureRule) → Context → Goal → Goal
  with_posture none context goal = goal
  with_posture (some rules) context goal = record goal {
    risk_tolerance = (resolve search rules context goal.risk_tolerance).posture;
  }

  -- `Engine.plan`, with the objects that it leaves.
  unfoldable pub plan_goal :
      (String → String) → Context → (ℕ → ℕ → ℕ) → Engine → Goal → Result LoopResult × Engine
  unfolding run_loop
  plan_goal sha256 context clock engine goal =
      let (result, s) =
        run_loop sha256 (with_posture engine.posture_rules context goal) engine.config
          engine.planner engine.critic engine.domain_gates none clock (session_of engine) in
      (result, record engine { run_budget = s.run_budget; precondition_ledger = s.ledger })
