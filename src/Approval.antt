-- ===== src/Approval.antt =====
-- approval.py: the threshold, and the only constructor of an approved plan. The expiry of an approval
-- is held by the gate and read by no operation, so it is left out.
pub mod Threshold
use planner_critic_engine.Prelude.{
  Bool, ◌&&◌, List, [], ◌∷◌, ◌++◌, Result, ok, err, planning_error, is_empty, if◌then◌else◌,
}
use planner_critic_engine.Schema.Goal.{RiskTolerance, strict, balanced, permissive}
use planner_critic_engine.Schema.Plan.{PlanVersion}
use planner_critic_engine.Types.{
  Finding, Severity, blocker, warning, info, ApprovedPlan, is_llm_finding,
}

pub record ThresholdOutcome : Type 0 where
  pub acknowledged : List Finding
  pub pending_warnings : List Finding
  pub blockers : List Finding

abbrev pub satisfied : ThresholdOutcome → Bool
satisfied o = is_empty o.blockers && is_empty o.pending_warnings

abbrev acknowledge : ThresholdOutcome → Finding → ThresholdOutcome
acknowledge o f = record o { acknowledged = o.acknowledged ++ f ∷ [] }

abbrev pend : ThresholdOutcome → Finding → ThresholdOutcome
pend o f = record o { pending_warnings = o.pending_warnings ++ f ∷ [] }

abbrev block : ThresholdOutcome → Finding → ThresholdOutcome
block o f = record o { blockers = o.blockers ++ f ∷ [] }

-- The body of the loop, by the severity of the finding and the posture.
unfoldable pub sort_finding :
    ThresholdOutcome → Finding → Severity → RiskTolerance → ThresholdOutcome
sort_finding o f blocker strict = block o f
sort_finding o f blocker balanced = if is_llm_finding f then acknowledge o f else block o f
sort_finding o f blocker permissive = if is_llm_finding f then acknowledge o f else block o f
sort_finding o f warning strict = pend o f
sort_finding o f warning balanced = acknowledge o f
sort_finding o f warning permissive = acknowledge o f
sort_finding o f info _ = o

unfoldable pub split_findings : RiskTolerance → ThresholdOutcome → List Finding → ThresholdOutcome
unfolding sort_finding
split_findings r o [] = o
split_findings r o (f ∷ fs) = split_findings r (sort_finding o f f.severity r) fs

abbrev pub no_findings : ThresholdOutcome
no_findings = record { acknowledged = []; pending_warnings = []; blockers = [] }

unfoldable pub resolve_threshold : List Finding → RiskTolerance → Bool × ThresholdOutcome
unfolding split_findings
resolve_threshold findings r =
    let outcome = split_findings r no_findings findings in (satisfied outcome, outcome)

unfoldable pub meets_threshold : List Finding → RiskTolerance → Bool
unfolding resolve_threshold
meets_threshold findings r = (resolve_threshold findings r).0

-- `ApprovalGate(risk_tolerance).approve(plan, outcome)`
unfoldable pub approve : RiskTolerance → PlanVersion → ThresholdOutcome → Result ApprovedPlan
approve r plan o =
    if satisfied o
    then ok (record { plan = plan; findings = o.acknowledged; risk_tolerance = r })
    else err (planning_error "approval_threshold_not_met")
