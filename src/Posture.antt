-- ===== src/Posture.antt =====
-- posture.py: the posture of a run by the first rule that matches its context. The environment, git and
-- `re.search` are parameters.
pub mod First
mod Samples
use planner_critic_engine.Prelude.{
  ℕ, suc, String, Bool, true, false, not, ◌&&◌, Option, none, some, List, [], ◌∷◌, map, Result, ok,
  ◌>>=◌, text, Dict, dict_get, dict_set, ◌==◌, string_eq, nat_eq, codes, starts_with, drop_chars,
  if◌then◌else◌,
}
use planner_critic_engine.Schema.Goal.{RiskTolerance}
use planner_critic_engine.Schema.Acceptance.{parse_tolerance}

abbrev pub Context : Type 0
Context = Dict String String

pub record PostureRule : Type 0 where
  pub match : Dict String String
  pub posture : RiskTolerance

pub record ResolvedPosture : Type 0 where
  pub posture : RiskTolerance
  pub rule_id : Option ℕ
  pub context_signal : Option String

-- `PostureResolver.from_dict`: each entry has its match and the text of its posture.
unfoldable pub from_dict : List (Dict String String × String) → Result (List PostureRule)
unfolding parse_tolerance
from_dict [] = ok []
from_dict ((m, posture) ∷ entries) = do
  p ← parse_tolerance posture
  rules ← from_dict entries
  ok (record { match = m; posture = p } ∷ rules)

-- `context.get(key, "")`
abbrev pub signal_of : Context → String → String
signal_of context key = elim (dict_get context key) [ none ↦ "" | some v ↦ v ]

module _ (search : (pattern : String) → (text : String) → Bool) where
  -- One entry of a rule: a text, or a pattern behind `re:`.
  abbrev pub entry_matches : String → String → Bool
  unfolding starts_with
  entry_matches expected actual =
      if starts_with (codes expected) (codes "re:")
      then search (drop_chars 3 expected) actual
      else actual == expected

  -- `_matches`
  unfoldable pub matches : Dict String String → Context → Bool
  unfolding starts_with
  matches [] context = true
  matches ((key, expected) ∷ entries) context =
      let rest = matches entries context in
      if entry_matches expected (signal_of context key) then rest else false

  -- `_matched_signal`
  unfoldable pub matched_signal : Dict String String → Context → String
  matched_signal [] context = ""
  matched_signal ((key, expected) ∷ entries) context =
      let rest = matched_signal entries context in
      if signal_of context key == "" then rest else text (key ∷ "=" ∷ signal_of context key ∷ [])

  -- The loop over the rules, from an index on.
  unfoldable pub resolve_from : ℕ → List PostureRule → Context → RiskTolerance → ResolvedPosture
  unfolding matches matched_signal
  resolve_from i [] context goal_posture = record {
    posture = goal_posture;
    rule_id = none;
    context_signal = none;
  }
  resolve_from i (rule ∷ rules) context goal_posture =
      let rest = resolve_from (suc i) rules context goal_posture in
      if matches rule.match context
      then record {
        posture = rule.posture;
        rule_id = some i;
        context_signal = some (matched_signal rule.match context);
      }
      else rest

  unfoldable pub resolve : List PostureRule → Context → RiskTolerance → ResolvedPosture
  unfolding resolve_from
  resolve rules context goal_posture = resolve_from 0 rules context goal_posture

-- Context sources answer a text, or nothing, which an exception is too.
abbrev pub add_sources : Context → List (String × Option String) → Context
add_sources ctx [] = ctx
add_sources ctx ((key, none) ∷ sources) = add_sources ctx sources
add_sources ctx ((key, some v) ∷ sources) = add_sources (dict_set ctx key v) sources

-- `_collect_context`, from `os.environ.get(name, "")`, the branch that git reports, and the registered
-- sources.
unfoldable pub collect_context :
    (String → String) → Option String → List (String × Option String) → Context
collect_context environ git sources =
    let named = environ "PC_GIT_BRANCH" in
    let branch = if named == "" then elim git [ none ↦ "" | some b ↦ b ] else named in
    add_sources
      (("env", environ "ENV")
        ∷ ("pc_env", environ "PC_ENV")
        ∷ ("git_branch", branch)
        ∷ ("deploy_target", environ "PC_TERRAFORM_WORKSPACE")
        ∷ ("k8s_namespace", environ "PC_K8S_NAMESPACE")
        ∷ [])
      sources
