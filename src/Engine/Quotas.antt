-- ===== src/Engine/Quotas.antt =====
-- A plan that an engine approves passes the gates of its pack and keeps to its quotas.
use planner_critic_engine.Prelude.{
  ℕ, String, Bool, true, Option, none, some, List, [], ◌∷◌, ◌++◌, ok, All, ◌≡◌, sym, ap, arith,
  >>=-eq-ok, subst,
}
use planner_critic_engine.Schema.Goal.{Goal, balanced}
use planner_critic_engine.Schema.Plan.{PlanVersion}
use planner_critic_engine.Gates.{gates, run_deterministic_gates}
use planner_critic_engine.Gates.Clean.{IsClean, run_gates-IsClean, found_eq}
use planner_critic_engine.RunBudget.{RunBudget}
use planner_critic_engine.Ledger.{PreconditionLedger}
use planner_critic_engine.Quota.{BlastRadiusQuotaConfig}
use planner_critic_engine.Quota.Bounds.{keeps_to, quota_gate-keeps_to}
use planner_critic_engine.Posture.{PostureRule, Context}
use planner_critic_engine.Loop.Roles.{Planner, Critic, LoopConfig, LoopResult, approved}
use planner_critic_engine.Loop.Controller.{run_loop}
use planner_critic_engine.Loop.GatesPassed.{run_loop-GatesPassed}
use planner_critic_engine.Engine.{
  GatesConfig, DomainPack, Engine, pack_gates, quota_gates, make_engine, validate, with_posture,
  session_of, plan_goal,
}

-- The quotas of an engine, where it has some.
abbrev pub KeepsQuota : Option BlastRadiusQuotaConfig → PlanVersion → Type 0
KeepsQuota none plan = Unit
KeepsQuota (some q) plan = keeps_to q balanced plan ≡ true

split_All {ℓ κ} :
    {A : Type ℓ} (P : A → Type κ) (xs ys : List A) → All P (xs ++ ys) → All P xs × All P ys
split_All P [] ys h = (tt, h)
split_All P (x ∷ xs) ys h = let (left, right) = split_All P xs ys h.1 in ((h.0, left), right)

clean_quota :
    (q : Option BlastRadiusQuotaConfig) (plan : PlanVersion)
    → All (IsClean plan) (quota_gates q)
    → KeepsQuota q plan
clean_quota none plan h = tt
clean_quota (some q) plan ((found, run, clean), _) =
    let exact = quota_gate-keeps_to q balanced plan found run in ground (arith, exact, clean)

-- Where an engine is made of a pack and quotas, and plans a goal to an approval, every gate of the pack
-- runs on the plan and reports no blocker, and the plan keeps to the quotas, under any rules of posture.
pub plan_goal-KeepsQuota :
    (sha256 : String → String) (search : String → String → Bool) (context : Context)
    (clock : ℕ → ℕ → ℕ) (planner : Planner) (critic : Critic) (config : LoopConfig)
    (pack : Option DomainPack) (rules : Option (List PostureRule)) (run_budget : Option RunBudget)
    (ledger : Option PreconditionLedger) (quota : Option BlastRadiusQuotaConfig)
    (gates_config : GatesConfig) (engine engine' : Engine) (goal : Goal) (result : LoopResult)
    → make_engine planner critic config pack rules run_budget ledger quota gates_config ≡ ok engine
    → plan_goal search sha256 context clock engine goal ≡ (ok result, engine')
    → result.status ≡ approved
    → All (IsClean result.plan) (pack_gates pack) × KeepsQuota quota result.plan
unfolding make_engine plan_goal
plan_goal-KeepsQuota sha256 search context clock planner critic config pack rules run_budget ledger
      quota gates_config engine engine' goal result made planned settled =
    let (_, valid, built) = >>=-eq-ok (validate gates_config) _ made in
    let gates_of : pack_gates pack ++ quota_gates quota ≡ engine.domain_gates =
      ap (λ e. e.domain_gates) (found_eq _ engine built) in
    let run =
      run_loop sha256 (with_posture search engine.posture_rules context goal) engine.config
        engine.planner engine.critic engine.domain_gates none clock (session_of engine) in
    let ended : run ≡ (ok result, run.1) = ap (λ r. (r, run.1)) (ap (λ t. t.0) planned) in
    let (findings, ran, clean) =
      run_loop-GatesPassed sha256 (with_posture search engine.posture_rules context goal)
        engine.config engine.planner engine.critic engine.domain_gates none clock
        (session_of engine) run.1 result ended settled in
    let (_, extra) = split_All (IsClean result.plan) gates engine.domain_gates (
      run_gates-IsClean (gates ++ engine.domain_gates) result.plan findings
        (unfold run_deterministic_gates in ran) clean) in
    let (packed, quotas) =
      split_All (IsClean result.plan) (pack_gates pack) (quota_gates quota)
        (subst (All (IsClean result.plan)) (sym gates_of) extra) in
    (packed, clean_quota quota result.plan quotas)
