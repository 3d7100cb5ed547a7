-- ===== src/Schema/Acceptance.antt =====
-- schema/acceptance.py: the frozen acceptance contract. SHA-256 is a parameter; the time of the binding
-- is left out.
pub mod Frozen
use planner_critic_engine.Prelude.{
  ℕ, ◌+◌, String, Bool, Option, none, some, List, [], ◌∷◌, ◌++◌, map, Result, ok, err, value_error,
  ◌>>=◌, ◌==◌, string_eq, string_ord, pair_ord, pair_eq, sorted, text, join, repr, if◌then◌else◌,
}
use planner_critic_engine.Schema.Goal.{
  Goal, RiskTolerance, strict, balanced, permissive, tolerance_value,
}
use planner_critic_engine.Types.{Finding}
use planner_critic_engine.Approval.{ThresholdOutcome, resolve_threshold}

pub record AcceptanceCriterion : Type 0 where
  pub kind : String
  pub value : String

pub record AcceptanceContract : Type 0 where
  pub goal_id : String
  pub criteria : List AcceptanceCriterion
  pub approving_authority : String
  pub contract_version : ℕ
  pub prior_hashes : List String
  pub content_hash : String

-- `RiskTolerance(value)`
unfoldable pub parse_tolerance : String → Result RiskTolerance
parse_tolerance v =
    if v == "strict"
    then ok strict
    else if v == "balanced"
    then ok balanced
    else if v == "permissive"
    then ok permissive
    else err value_error

-- The first criterion of kind "risk_tolerance".
unfoldable pub criteria_tolerance : List AcceptanceCriterion → Result RiskTolerance
unfolding parse_tolerance
criteria_tolerance [] = ok balanced
criteria_tolerance (c ∷ cs) =
    if c.kind == "risk_tolerance" then parse_tolerance c.value else criteria_tolerance cs

unfoldable pub risk_tolerance : AcceptanceContract → Result RiskTolerance
unfolding criteria_tolerance
risk_tolerance contract = criteria_tolerance contract.criteria

abbrev repr_pair : String × String → String
repr_pair p = text ("(" ∷ repr p.0 ∷ ", " ∷ repr p.1 ∷ ")" ∷ [])

-- The text that is hashed: `repr(((goal_id, sorted(pairs)), authority))`.
pub payload : String → List AcceptanceCriterion → String → String
unfolding repr sorted join
payload goal_id criteria authority = text (
    "(("
    ∷ repr goal_id
    ∷ ", ["
    ∷ join ", " (map repr_pair (sorted (map (λ c. (c.kind, c.value)) criteria)))
    ∷ "]), "
    ∷ repr authority
    ∷ ")"
    ∷ [])

module _ (sha256 : String → String) where
  pub content_hash : String → List AcceptanceCriterion → String → String
  content_hash goal_id criteria authority = sha256 (payload goal_id criteria authority)

  unfoldable pub bind_acceptance : Goal → String → AcceptanceContract
  unfolding content_hash
  bind_acceptance goal authority =
      let criteria : List AcceptanceCriterion =
        record { kind = "risk_tolerance"; value = tolerance_value goal.risk_tolerance } ∷ [] in
      record {
        goal_id = goal.id;
        criteria = criteria;
        approving_authority = authority;
        contract_version = 1;
        prior_hashes = [];
        content_hash = sha256 (payload goal.id criteria authority);
      }

  -- `approving_authority or contract.approving_authority`: an empty text carries the old one forward.
  abbrev new_authority : AcceptanceContract → Option String → String
  new_authority contract none = contract.approving_authority
  new_authority contract (some a) = if a == "" then contract.approving_authority else a

  unfoldable pub revise_contract : AcceptanceContract → Option String → AcceptanceContract
  unfolding content_hash
  revise_contract contract authority =
      let a = new_authority contract authority in
      record contract {
        approving_authority = a;
        contract_version = contract.contract_version + 1;
        prior_hashes = contract.prior_hashes ++ contract.content_hash ∷ [];
        content_hash = sha256 (payload contract.goal_id contract.criteria a);
      }

unfoldable pub evaluate_contract :
    List Finding → AcceptanceContract → Result (Bool × ThresholdOutcome)
evaluate_contract findings contract = do
  r ← risk_tolerance contract
  ok (resolve_threshold findings r)
