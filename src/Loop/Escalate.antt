-- ===== src/Loop/Escalate.antt =====
-- loop/_controller.py: what an escalation says, and how a reply of the planner becomes a revision.
use planner_critic_engine.Prelude.{
  ℕ, ◌+◌, String, Option, none, some, List, [], ◌∷◌, map, Result, ok, err, planning_error,
  validation_error, text, str, repr, join, sorted, unique, string_eq, string_ord, filter,
  if◌then◌else◌,
}
use planner_critic_engine.Schema.Goal.{Goal}
use planner_critic_engine.Schema.Plan.{PlanVersion}
use planner_critic_engine.Schema.Validate.{model_validate}
use planner_critic_engine.Types.{Finding, ReasonCode, is_blocker, open_}
use planner_critic_engine.Loop.Roles.{
  LoopResult, Reply, raised, untyped, answer, escalated, Planner,
}

abbrev pub blockers_of : List Finding → List Finding
blockers_of findings = filter (λ f. is_blocker f.severity) findings

-- `_compose_question`
unfoldable pub compose_question : Goal → List Finding → ReasonCode → String
unfolding repr join sorted
compose_question goal [] reason =
    text (
      "Plan for goal "
      ∷ repr goal.id
      ∷ " did not converge ("
      ∷ reason
      ∷ "). Decide next step."
      ∷ [])
compose_question goal (b ∷ bs) reason = text (
    "Plan for goal "
    ∷ repr goal.id
    ∷ " cannot be approved: blockers remain ("
    ∷ join "; " (sorted (unique (map (λ f. f.reason_code) (b ∷ bs))))
    ∷ "). Decide whether to patch, override, or abandon."
    ∷ [])

abbrev pub first_id : List Finding → Option String
first_id [] = none
first_id (b ∷ bs) = some b.id

-- `_escalate`
unfoldable pub escalate : Goal → PlanVersion → List Finding → ReasonCode → ℕ → LoopResult
unfolding compose_question str
escalate goal plan findings reason index = record {
  status = escalated;
  plan = plan;
  findings = findings;
  reason_code = reason;
  approved_plan = none;
  escalation = some (record {
    id = text ("escalation:" ∷ goal.id ∷ ":" ∷ str plan.version ∷ ":" ∷ str index ∷ []);
    plan_id = plan.id;
    version = plan.version;
    blocker_finding_id = first_id (blockers_of findings);
    question = compose_question goal (blockers_of findings) reason;
    status = open_;
    resolution = none;
    resolved_by = none;
  });
  spend = none;
}

-- `_plan_revision`: the next immutable revision of the parent, validated again.
unfoldable pub plan_revision : PlanVersion → String → PlanVersion → Result PlanVersion
plan_revision plan next_id parent =
    let revised = record plan {
      id = next_id;
      version = parent.version + 1;
      parent_version = some parent.id;
    } in
    if model_validate revised then ok revised else err validation_error

abbrev pub accept_reply : Reply → String → PlanVersion → Result PlanVersion
accept_reply raised next_id parent = err (planning_error "planning_unavailable")
accept_reply untyped next_id parent = err (planning_error "planning_unavailable")
accept_reply (answer p) next_id parent = plan_revision p next_id parent

-- `_revise_or_raise`, at a revision of the loop
unfoldable pub revise_or_raise :
    Planner → Goal → ℕ → PlanVersion → List Finding → Result PlanVersion
unfolding plan_revision str
revise_or_raise planner goal revision plan findings =
    accept_reply (planner.revise revision plan findings)
      (text ("plan-" ∷ goal.id ∷ "-r" ∷ str (revision + 1) ∷ [])) plan
