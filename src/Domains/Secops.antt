-- ===== src/Domains/Secops.antt =====
-- domains/secops/gates.py.
pub mod Order
use planner_critic_engine.Prelude.{
  ℕ, String, Bool, true, false, not, ◌&&◌, ◌||◌, List, [], ◌∷◌, ◌++◌, map, reverse, Result, ok,
  text, repr, any, ◌==◌, string_eq, contains, codes, starts_with, if◌then◌else◌, ◌≡◌, refl, sym, ap,
  ◌∙◌, arith, Bool-cases, inl, inr,
}
use planner_critic_engine.Schema.Plan.{PlanVersion, Task}
use planner_critic_engine.Types.{Finding}
use planner_critic_engine.Gates.Clean.{found_eq}
use planner_critic_engine.Loop.Regression.{is_gate_blocker}
use planner_critic_engine.Domains.Flags.{acts, has_action, task_finding, flag, flag-blocker}

abbrev pub drains : Task → Bool
drains t = t.action == "drain"

abbrev pub isolates : Task → Bool
isolates t = t.action == "isolate"

abbrev pub isolation_finding : PlanVersion → Task → Finding
isolation_finding plan t =
    task_finding plan "secops_blast_radius" t "" "secops_isolation_without_traffic_drain"
      (text ("isolation step " ∷ repr t.id ∷ " has no prior traffic drain" ∷ []))

-- The loop over the tasks, with `seen_drain`.
unfoldable pub isolations : PlanVersion → Bool → List Task → List Finding
unfolding repr
isolations plan seen [] = []
isolations plan seen (t ∷ ts) =
    let seen' = if drains t then true else seen in
    let rest = isolations plan seen' ts in
    if isolates t && not seen' then isolation_finding plan t ∷ rest else rest

-- `BlastRadiusGate.run`
unfoldable pub blast_radius_gate : PlanVersion → Result (List Finding)
unfolding isolations
blast_radius_gate plan = ok (isolations plan false plan.tasks)

abbrev pub destructive_actions : List String
destructive_actions = "terminate" ∷ "stop" ∷ "destroy" ∷ "delete" ∷ []

abbrev pub preservation_actions : List String
preservation_actions = "snapshot" ∷ "backup" ∷ "export" ∷ "capture" ∷ []

abbrev pub order_finding : PlanVersion → Task → Finding
order_finding plan t =
    task_finding plan "secops_forensic_order" t "" "secops_forensic_order_violation" (
      text (
        "destructive action appears before preservation step "
        ∷ repr t.id
        ∷ " ("
        ∷ t.action
        ∷ ")"
        ∷ []))

-- The loop over the tasks, with `seen_destructive`.
unfoldable pub preservations : PlanVersion → Bool → List Task → List Finding
unfolding repr
preservations plan seen [] = []
preservations plan seen (t ∷ ts) =
    let destroys = acts destructive_actions t in
    let rest = preservations plan (if destroys then true else seen) ts in
    if destroys
    then rest
    else if acts preservation_actions t && seen
    then order_finding plan t ∷ rest
    else rest

-- `ForensicOrderGate.run`
unfoldable pub forensic_order_gate : PlanVersion → Result (List Finding)
unfolding preservations
forensic_order_gate plan = ok (preservations plan false plan.tasks)

abbrev pub broad_targets : List String
broad_targets = "*" ∷ "all" ∷ "everything" ∷ "arn:aws:iam::*" ∷ []

-- `s.endswith(t)`
abbrev pub ends_with : String → String → Bool
unfolding starts_with
ends_with s t = starts_with (reverse (codes s)) (reverse (codes t))

-- `_match_broad_target`
unfoldable pub match_broad_target : String → String → Bool
unfolding starts_with
match_broad_target target broad =
    if broad == "*"
    then target == "*"
    else if broad == "all"
    then target == "all"
    else if broad == "everything"
    then target == "everything"
    else if broad == "arn:aws:iam::*"
    then target == "arn:aws:iam::*"
      || (starts_with (codes target) (codes "arn:aws:iam::") && ends_with target ":root")
    else false

abbrev pub is_broad : Task → Bool
unfolding match_broad_target starts_with
is_broad t =
    starts_with (codes t.action) (codes "sts:")
    && any (λ b. match_broad_target t.target b) broad_targets

abbrev pub hitl_actions : List String
hitl_actions = "human_approval" ∷ "approve" ∷ "peer_review" ∷ []

abbrev pub privilege_finding : PlanVersion → Task → Finding
privilege_finding plan t =
    task_finding plan "secops_least_privilege" t "" "secops_broad_privilege_without_hitl" (
      text (
        "broad privilege "
        ∷ repr t.action
        ∷ " on "
        ∷ repr t.target
        ∷ " has no prior human approval step"
        ∷ []))

-- `LeastPrivilegeGate.run`
unfoldable pub least_privilege_gate : PlanVersion → Result (List Finding)
unfolding flag match_broad_target starts_with repr
least_privilege_gate plan =
    ok (flag is_broad (has_action hitl_actions plan) (privilege_finding plan) plan.tasks)
