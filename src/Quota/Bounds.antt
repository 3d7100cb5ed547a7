-- ===== src/Quota/Bounds.antt =====
-- What a plan without a blocker of the quota gate keeps to.
use planner_critic_engine.Prelude.{
  ℕ, String, Bool, true, not, ◌&&◌, ◌||◌, Option, none, some, List, [], ◌∷◌, ◌++◌, map, ◌≡◌, refl,
  sym, ◌∙◌, ap, arith, ◌==◌, nat_eq, list_eq, concat_map, any, any-append, all, length, filter, ok,
  leb,
}
use planner_critic_engine.Schema.Goal.{RiskTolerance, strict, balanced, permissive, is_strict}
use planner_critic_engine.Schema.Plan.{PlanVersion, Task}
use planner_critic_engine.Types.{Finding, is_blocker}
use planner_critic_engine.Gates.Clean.{found_eq}
use planner_critic_engine.Loop.Regression.{is_gate_blocker}
use planner_critic_engine.Quota.{
  BlastRadiusQuotaConfig, quota_gate, quota_findings, change_findings, destruction_findings,
  alteration_findings, task_findings, action_findings, cluster_findings, count, is_destructive,
  alters_database, lowered, in_cluster, action_finding, cluster_finding, posture_severity,
}

-- A count within an optional limit.
abbrev pub within : Option ℕ → ℕ → Bool
within none n = true
within (some limit) n = leb n limit

-- A task uses no restricted action and aims at no restricted cluster.
abbrev pub unrestricted : BlastRadiusQuotaConfig → Task → Bool
unfolding lowered in_cluster
unrestricted config t =
    not (any (λ a. lowered t.action == lowered a) config.restricted_actions)
    && not (any (in_cluster t) config.restricted_clusters)

-- The quotas, and under the strict posture the restrictions too.
abbrev pub keeps_to : BlastRadiusQuotaConfig → RiskTolerance → PlanVersion → Bool
unfolding lowered in_cluster is_destructive alters_database
keeps_to config posture plan =
    (not (is_strict posture) || all (unrestricted config) plan.tasks)
    && within config.max_resource_changes (length plan.tasks)
    && within config.max_destructive_actions (count is_destructive plan.tasks)
    && within config.max_database_alterations (count alters_database plan.tasks)

quota_findings-within :
    (plan : PlanVersion) (limit : Option ℕ) (n : ℕ) (name message : String)
    → any is_gate_blocker (quota_findings plan limit n name message) ≡ not (within limit n)
unfolding quota_findings
quota_findings-within plan none n name message = refl
quota_findings-within plan (some limit) n name message = ground arith

any-concat_map :
    {A : Type 0} (p : Finding → Bool) (f : A → List Finding) (xs : List A)
    → any p (concat_map f xs) ≡ any (λ x. any p (f x)) xs
any-concat_map p f [] = refl
any-concat_map p f (x ∷ xs) =
    ground (arith, any-append p (f x) (concat_map f xs), any-concat_map p f xs)

-- Findings that are all blockers, or all none, made of the elements that pass a test.
any-made :
    (b : Bool) (q : String → Bool) (make : String → Finding) (l : List String)
    → ((a : String) → is_gate_blocker (make a) ≡ b)
    → any is_gate_blocker (map make (filter q l)) ≡ (b && any q l)
any-made b q make [] h = ground arith
any-made b q make (a ∷ l) h = ground (arith, h a, any-made b q make l h)

any-both :
    (xs ys : List Finding) (a b : Bool)
    → any is_gate_blocker xs ≡ a
    → any is_gate_blocker ys ≡ b
    → any is_gate_blocker (xs ++ ys) ≡ (a || b)
any-both xs ys a b h k = ground (arith, any-append is_gate_blocker xs ys)

either_restricts : (b x y : Bool) → ((b && x) || (b && y)) ≡ (b && not (not x && not y))
either_restricts b x y = ground arith

posture_severity-blocker :
    (posture : RiskTolerance) → (is_blocker (posture_severity posture) && true) ≡ is_strict posture
posture_severity-blocker strict = refl
posture_severity-blocker balanced = refl
posture_severity-blocker permissive = refl

task_findings-blocker :
    (config : BlastRadiusQuotaConfig) (posture : RiskTolerance) (plan : PlanVersion) (t : Task)
    → any is_gate_blocker (task_findings config posture plan t)
      ≡ (is_strict posture && not (unrestricted config t))
unfolding action_findings cluster_findings
task_findings-blocker config posture plan t =
    any-both (action_findings config posture plan t) (cluster_findings config posture plan t)
      (is_strict posture && any (λ a. lowered t.action == lowered a) config.restricted_actions)
      (is_strict posture && any (in_cluster t) config.restricted_clusters)
      (any-made (is_strict posture) (λ a. lowered t.action == lowered a)
        (action_finding posture plan t) config.restricted_actions
        (λ a. posture_severity-blocker posture))
      (any-made (is_strict posture) (in_cluster t) (cluster_finding posture plan t)
        config.restricted_clusters (λ a. posture_severity-blocker posture))
    ∙ either_restricts (is_strict posture)
        (any (λ a. lowered t.action == lowered a) config.restricted_actions)
        (any (in_cluster t) config.restricted_clusters)

any-unrestricted :
    (b : Bool) (f p : Task → Bool) (ts : List Task)
    → ((t : Task) → f t ≡ (b && not (p t)))
    → any f ts ≡ (b && not (all p ts))
any-unrestricted b f p [] h = ground arith
any-unrestricted b f p (t ∷ ts) h = ground (arith, h t, any-unrestricted b f p ts h)

all_kept :
    (b u x y z : Bool)
    → ((((b && not u) || not x) || not y) || not z) ≡ not ((not b || u) && x && y && z)
all_kept b u x y z = ground arith

-- The gate reports a blocker exactly if the plan breaks a quota or, under the strict posture, a task
-- uses a restricted action or aims at a restricted cluster.
pub quota_gate-keeps_to :
    (config : BlastRadiusQuotaConfig) (posture : RiskTolerance) (plan : PlanVersion)
    (found : List Finding)
    → quota_gate config posture plan ≡ ok found
    → any is_gate_blocker found ≡ not (keeps_to config posture plan)
unfolding quota_gate
quota_gate-keeps_to config posture plan found run =
    let unrestricted_all = all (unrestricted config) plan.tasks in
    let changes = within config.max_resource_changes (length plan.tasks) in
    let destroyed = within config.max_destructive_actions (count is_destructive plan.tasks) in
    let altered = within config.max_database_alterations (count alters_database plan.tasks) in
    let tasks =
      any-concat_map is_gate_blocker (task_findings config posture plan) plan.tasks
      ∙ any-unrestricted (is_strict posture)
          (λ t. any is_gate_blocker (task_findings config posture plan t)) (unrestricted config)
          plan.tasks (task_findings-blocker config posture plan) in
    let first = concat_map (task_findings config posture plan) plan.tasks in
    let restricts = is_strict posture && not unrestricted_all in
    ap (any is_gate_blocker) (sym (found_eq _ found run))
    ∙ any-both (first ++ change_findings config plan ++ destruction_findings config plan)
        (alteration_findings config plan) ((restricts || not changes) || not destroyed)
        (not altered)
        (any-both (first ++ change_findings config plan) (destruction_findings config plan)
          (restricts || not changes) (not destroyed)
          (any-both first (change_findings config plan) restricts (not changes) tasks
            (quota_findings-within plan config.max_resource_changes (length plan.tasks) _ _))
          (quota_findings-within plan config.max_destructive_actions
            (count is_destructive plan.tasks) _ _))
        (quota_findings-within plan config.max_database_alterations
          (count alters_database plan.tasks) _ _)
    ∙ all_kept (is_strict posture) unrestricted_all changes destroyed altered
