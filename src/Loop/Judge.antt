-- ===== src/Loop/Judge.antt =====
-- loop/_controller.py, the decisions of a revision after its findings are known: approval, and the
-- tests that end the run.
use planner_critic_engine.Prelude.{
  ℕ, ◌+◌, Bool, true, false, ◌&&◌, not, Option, none, some, List, [], ◌∷◌, ◌++◌, map, Result, ok,
  err, ◌>>=◌, ◌==◌, string_eq, nat_eq, pair_eq, list_eq, bool_eq, contains, filter, all, is_empty,
  length, ltb, leb, if◌then◌else◌,
}
use planner_critic_engine.Schema.Goal.{Goal, RiskTolerance, ReplanPolicy, abort}
use planner_critic_engine.Schema.Plan.{PlanVersion}
use planner_critic_engine.Types.{Finding, ReasonCode, ApprovedPlan, info, is_blocker, is_warning}
use planner_critic_engine.Critique.Mode.{has_blocker}
use planner_critic_engine.Approval.{ThresholdOutcome, resolve_threshold, approve}
use planner_critic_engine.Gates.Base.{gate_id, gate_finding}
use planner_critic_engine.Ledger.{process_plan}
use planner_critic_engine.Loop.Budget.{budget_exceeded}
use planner_critic_engine.Loop.Regression.{regression_detected}
use planner_critic_engine.Loop.Convergence.{stalled}
use planner_critic_engine.Loop.Oscillation.{detect_oscillation, oscillating_task_ids}
use planner_critic_engine.Loop.Histogram.{compute_family_histogram, detect_histogram_cycling}
use planner_critic_engine.Loop.Roles.{LoopConfig, LoopResult, Session, Carry, Planner}
use planner_critic_engine.Loop.Roles
use planner_critic_engine.Loop.Escalate.{escalate, revise_or_raise}
use planner_critic_engine.Loop.Audit.{check_run}

-- `_critic_satisfied`
abbrev pub critic_satisfied : List Finding → Bool
critic_satisfied findings =
    all (λ f. not (is_blocker f.severity) && not (is_warning f.severity)) findings

abbrev pub approved_result : PlanVersion → List Finding → ReasonCode → ApprovedPlan → LoopResult
approved_result plan findings code a = record {
  status = Roles.approved;
  plan = plan;
  findings = findings;
  reason_code = code;
  approved_plan = some a;
  escalation = none;
  spend = none;
}

-- `approval.approve(plan, outcome)` and the result of it.
unfoldable pub approve_with :
    RiskTolerance → PlanVersion → List Finding → ReasonCode → ThresholdOutcome → Result LoopResult
approve_with r plan findings code outcome = do
  a ← approve r plan outcome
  ok (approved_result plan findings code a)

-- `_build_auto_converged_plan`: the tasks that both plans have, and the dependencies between them.
unfoldable pub build_auto_converged_plan : PlanVersion → Option PlanVersion → Option PlanVersion
build_auto_converged_plan current none = none
build_auto_converged_plan current (some prior) =
    let oscillating = oscillating_task_ids prior current in
    let stable = filter (λ t. not (contains oscillating t.id)) current.tasks in
    let ids = map (λ t. t.id) stable in
    if is_empty oscillating
    then none
    else if is_empty stable
    then none
    else some (record current {
      tasks = stable;
      dependencies =
          filter (λ d. contains ids d.from_task && contains ids d.to_task) current.dependencies;
    })

abbrev pub is_abort : ReplanPolicy → Bool
is_abort abort = true
is_abort _ = false

-- What a revision leads to: the result of the run, or the next revision.
pub data Step : Type 0 where
  done : Result LoopResult → Step
  again : Carry → Step

abbrev pub converge_finding : PlanVersion → Finding
converge_finding plan =
    gate_finding plan (gate_id "auto_converge" plan "") none info "auto_converge_partial_approval"
      "auto-converged non-oscillating tasks; oscillating subset escalated"

abbrev pub or_escalate : Option (Result LoopResult) → LoopResult → Result LoopResult
or_escalate none escalation = ok escalation
or_escalate (some result) escalation = result

-- `precondition_ledger.process_plan(plan)`
abbrev pub process : PlanVersion → Session → Session
process plan s = elim s.ledger [
  | none ↦ s
  | some l ↦ record s { ledger = some (process_plan plan l) }
]

module _ (goal : Goal) (config : LoopConfig) (planner : Planner) (r : RiskTolerance) (cap : ℕ)
    (clock : ℕ → ℕ → ℕ) where
  -- The partial approval of an oscillating plan, where the policy asks for it.
  unfoldable pub auto_converge :
      PlanVersion → Option PlanVersion → List Finding → Option (Result LoopResult)
  unfolding build_auto_converged_plan
  auto_converge plan prior findings =
      if config.converge_policy == "auto_converge"
      then elim (build_auto_converged_plan plan prior) [
        | none ↦ none
        | some merged ↦
            let merged_findings = findings ++ converge_finding plan ∷ [] in
            let threshold = resolve_threshold merged_findings r in
            if threshold.0
            then some (approve_with r merged merged_findings "approved" threshold.1)
            else none
      ]
      else none

  abbrev pub cycle_start : ℕ
  cycle_start =
      if leb config.oscillation_window config.revision_cap
      then config.oscillation_window
      else config.histogram_lag + 1

  -- `len(hist_history) >= cycle_start and detect_histogram_cycling(...)`
  abbrev pub cycling : Carry → Result Bool
  cycling c =
      if leb cycle_start (length c.hist_history)
      then detect_histogram_cycling c.hist_history config.histogram_lag
      else ok false

  abbrev pub revised : Carry → Session → Result PlanVersion → Step × Session
  revised c s (err e) = (done (err e), s)
  revised c s (ok plan) = (again (record c { plan = plan }), process plan s)

  -- The end of the body: a new revision of the plan, except in the last round.
  unfoldable pub advance : ℕ → Carry → List Finding → Session → Step × Session
  advance revision c findings s =
      let next = record c { prior_plan = some c.plan; prior_findings = findings } in
      if ltb revision cap
      then revised next s (revise_or_raise planner goal revision c.plan findings)
      else (again next, s)

  abbrev pub unless_cycling : ℕ → Carry → List Finding → Session → Result Bool → Step × Session
  unless_cycling revision c findings s (err e) = (done (err e), s)
  unless_cycling revision c findings s (ok true) =
      (done (ok (escalate goal c.plan findings "family_histogram_cycling" revision)), s)
  unless_cycling revision c findings s (ok false) = advance revision c findings s

  -- The histogram joins the history, and its cycling is tested.
  unfoldable pub after_oscillation : ℕ → Carry → List Finding → Session → Step × Session
  unfolding advance
  after_oscillation revision c findings s =
      let c' = record c {
        hist_history = c.hist_history ++ compute_family_histogram findings ∷ [];
      } in
      unless_cycling revision c' findings s (cycling c')

  -- The tests of the plan's progress, in the order of the code.
  unfoldable pub progress_tests : ℕ → Carry → List Finding → Session → Step × Session
  unfolding after_oscillation auto_converge
  progress_tests revision c findings s =
      if is_abort goal.replan_policy
      then (done (ok (escalate goal c.plan findings "replan_aborted" revision)), s)
      else if regression_detected c.prior_findings findings
      then (done (ok (escalate goal c.plan findings "regression_thrashing" revision)), s)
      else if stalled c.prior_plan c.prior_findings c.plan findings
      then (done (ok (escalate goal c.plan findings "converged_stalled" revision)), s)
      else if detect_oscillation c.sig_history config.oscillation_window
      then (
        done (
            or_escalate (auto_converge c.plan c.prior_plan findings)
              (escalate goal c.plan findings "plan_oscillation_detected" revision)),
        s,
      )
      else after_oscillation revision c findings s

  -- The two budgets, of the goal and of the run; what follows waits for both.
  abbrev pub unless_run_spent :
      ℕ
      → PlanVersion
      → List Finding
      → (Session → Step × Session)
      → Option ReasonCode × Session
      → Step × Session
  unless_run_spent revision plan findings k (some code, s) =
      (done (ok (escalate goal plan findings code revision)), s)
  unless_run_spent revision plan findings k (none, s) = k s

  unfoldable pub unless_spent :
      ℕ → ℕ → PlanVersion → List Finding → (Session → Step × Session) → Session → Step × Session
  unless_spent revision place plan findings k s =
      let hit = budget_exceeded goal.constraints.budget s.spend in
      let s' = record s { spend = hit.1 } in
      if hit.0
      then (done (ok (escalate goal plan findings "budget_exceeded" revision)), s')
      else unless_run_spent revision plan findings k (check_run (clock revision place) s')

  -- Everything after the findings of the revision are known.
  unfoldable pub judge : ℕ → Carry → List Finding → List Finding → Session → Step × Session
  unfolding unless_spent progress_tests approve_with
  judge revision c gate_findings findings s =
      let threshold = resolve_threshold findings r in
      if threshold.0
      then (done (approve_with r c.plan findings "approved" threshold.1), s)
      else if critic_satisfied findings && not (has_blocker gate_findings)
      then (done (approve_with r c.plan findings "critic_satisfied" threshold.1), s)
      else unless_spent revision 3 c.plan findings (progress_tests revision c findings) s
