-- ===== src/Schema/Acceptance/Frozen.antt =====
-- The posture that a contract freezes.
use planner_critic_engine.Prelude.{String, Option, List, ◌≡◌, refl, ok}
use planner_critic_engine.Schema.Goal.{Goal, RiskTolerance, strict, balanced, permissive}
use planner_critic_engine.Types.{Finding}
use planner_critic_engine.Approval.{resolve_threshold}
use planner_critic_engine.Schema.Acceptance.{
  risk_tolerance, criteria_tolerance, parse_tolerance, bind_acceptance, revise_contract,
  evaluate_contract,
}

tolerance-back :
    (sha256 : String → String) (goal : Goal) (authority : String) (r : RiskTolerance)
    → goal.risk_tolerance ≡ r
    → risk_tolerance (bind_acceptance sha256 goal authority) ≡ ok r
unfolding risk_tolerance criteria_tolerance parse_tolerance bind_acceptance
tolerance-back sha256 goal authority strict h = rw h refl
tolerance-back sha256 goal authority balanced h = rw h refl
tolerance-back sha256 goal authority permissive h = rw h refl

pub evaluate_contract-bound :
    (sha256 : String → String) (goal : Goal) (authority : String) (new : Option String)
    (findings : List Finding)
    → (evaluate_contract findings (bind_acceptance sha256 goal authority)
        ≡ ok (resolve_threshold findings goal.risk_tolerance))
      × (evaluate_contract findings
            (revise_contract sha256 (bind_acceptance sha256 goal authority) new)
          ≡ ok (resolve_threshold findings goal.risk_tolerance))
unfolding evaluate_contract revise_contract risk_tolerance
evaluate_contract-bound sha256 goal authority new findings =
    let back = tolerance-back sha256 goal authority goal.risk_tolerance refl in
    (rw back refl, rw back refl)
