-- ===== src/Posture/Samples.antt =====
-- The theorem on the posture at two rules.
use planner_critic_engine.Prelude.{String, Bool, false, List, [], ◌∷◌, ◌≡◌, is_some, find, any}
use planner_critic_engine.Schema.Goal.{strict, balanced, permissive}
use planner_critic_engine.Posture.{PostureRule, Context, matches, resolve}
use planner_critic_engine.Posture.First.{posture_of, resolve-first}

abbrev rules : List PostureRule
rules =
    record { match = ("env", "prod") ∷ []; posture = strict }
    ∷ record { match = ("env", "dev") ∷ []; posture = permissive }
    ∷ []

abbrev context : Context
context = ("env", "dev") ∷ []

abbrev no_search : String → String → Bool
no_search pattern text = false

resolve-first_example :
    ((resolve no_search rules context balanced).posture
      ≡ posture_of balanced (find (λ r. matches no_search r.match context) rules))
    × (is_some (resolve no_search rules context balanced).rule_id
        ≡ any (λ r. matches no_search r.match context) rules)
resolve-first_example = resolve-first no_search rules context balanced
