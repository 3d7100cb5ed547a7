-- ===== src/Schema/Goal.antt =====
-- schema/goal.py: the typed planning request. `approval_ttl` counts seconds.
use planner_critic_engine.Prelude.{
  ℕ, String, Bool, true, false, not, Option, List, ◌≡◌, refl, is_empty, strip, codes, Eq, eq_via,
  nat_eq,
}

pub data RiskTolerance : Type 0 where
  strict balanced permissive : RiskTolerance

pub data ReplanPolicy : Type 0 where
  patch restart abort : ReplanPolicy

abbrev pub risk_tolerance_code : RiskTolerance → ℕ
risk_tolerance_code strict = 0
risk_tolerance_code balanced = 1
risk_tolerance_code permissive = 2

abbrev pub risk_tolerance_of : ℕ → RiskTolerance
risk_tolerance_of ℕ.zero = strict
risk_tolerance_of (ℕ.suc ℕ.zero) = balanced
risk_tolerance_of _ = permissive

pub RiskTolerance-code : (r : RiskTolerance) → risk_tolerance_of (risk_tolerance_code r) ≡ r
RiskTolerance-code strict = refl
RiskTolerance-code balanced = refl
RiskTolerance-code permissive = refl

instance abbrev pub risk_tolerance_eq : Eq RiskTolerance
risk_tolerance_eq = eq_via risk_tolerance_code risk_tolerance_of RiskTolerance-code

-- The ceilings of one goal; `none` is uncapped.
pub record Budget : Type 0 where
  pub max_tokens : Option ℕ
  pub max_calls : Option ℕ
  pub max_revisions : Option ℕ

pub record Constraints : Type 0 where
  pub budget : Budget
  pub time : Option String
  pub environment : Option String
  pub tools : List String

pub record Goal : Type 0 where
  pub id : String
  pub description : String
  pub constraints : Constraints
  pub risk_tolerance : RiskTolerance
  pub replan_policy : ReplanPolicy
  pub approval_ttl : Option ℕ
  pub metadata : List (String × String)

-- The values of the enum, as the contract stores them.
abbrev pub tolerance_value : RiskTolerance → String
tolerance_value strict = "strict"
tolerance_value balanced = "balanced"
tolerance_value permissive = "permissive"

abbrev pub is_strict : RiskTolerance → Bool
is_strict strict = true
is_strict balanced = false
is_strict permissive = false

-- `_require_description`: a description of white space only is refused.
pub require_description : Goal → Bool
unfolding strip
require_description goal = not (is_empty (strip (codes goal.description)))
