-- ===== src/Posture/First.antt =====
-- The rule that decides is the first that matches.
use planner_critic_engine.Prelude.{
  ℕ, suc, String, Bool, Option, none, some, is_some, List, [], ◌∷◌, find, any, ◌≡◌, refl,
  Bool-cases, inl, inr,
}
use planner_critic_engine.Schema.Goal.{RiskTolerance}
use planner_critic_engine.Posture.{PostureRule, Context, matches, resolve_from, resolve}

abbrev pub posture_of : RiskTolerance → Option PostureRule → RiskTolerance
posture_of goal_posture none = goal_posture
posture_of goal_posture (some rule) = rule.posture

module _ (search : String → String → Bool) where
  first_match :
      (i : ℕ) (rules : List PostureRule) (context : Context) (goal_posture : RiskTolerance)
      → ((resolve_from search i rules context goal_posture).posture
          ≡ posture_of goal_posture (find (λ r. matches search r.match context) rules))
        × (is_some (resolve_from search i rules context goal_posture).rule_id
            ≡ any (λ r. matches search r.match context) rules)
  unfolding resolve_from
  first_match i [] context goal_posture = (refl, refl)
  first_match i (rule ∷ rules) context goal_posture =
      elim (Bool-cases (matches search rule.match context)) [
        | inl fits ↦ rw fits (refl, refl)
        | inr other ↦ rw other (first_match (suc i) rules context goal_posture)
      ]

  -- The posture is that of the first rule that matches the context, or the goal's where none does; a rule
  -- is named exactly if one matches.
  pub resolve-first :
      (rules : List PostureRule) (context : Context) (goal_posture : RiskTolerance)
      → ((resolve search rules context goal_posture).posture
          ≡ posture_of goal_posture (find (λ r. matches search r.match context) rules))
        × (is_some (resolve search rules context goal_posture).rule_id
            ≡ any (λ r. matches search r.match context) rules)
  unfolding resolve
  resolve-first rules context goal_posture = first_match 0 rules context goal_posture
