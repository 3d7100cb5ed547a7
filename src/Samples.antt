-- ===== src/Samples.antt =====
-- The theorems about the threshold, the contract, the two budgets and the window, on concrete inputs.
use planner_critic_engine.Prelude.{
  ℕ, true, not, ◌&&◌, ◌||◌, none, some, List, [], ◌∷◌, ◌≡◌, refl, ok, filter, all, is_some, nat_eq,
  nodup, ltb, length,
}
use planner_critic_engine.Schema.Goal.{balanced, strict}
use planner_critic_engine.Schema.Acceptance.{bind_acceptance, revise_contract, evaluate_contract}
use planner_critic_engine.Schema.Acceptance.Frozen.{evaluate_contract-bound}
use planner_critic_engine.Types.{Finding, blocker, warning, risk}
use planner_critic_engine.Gates.Base.{gate_finding}
use planner_critic_engine.Loop.Samples.{swapped}
use planner_critic_engine.Approval.{resolve_threshold, meets_threshold}
use planner_critic_engine.Approval.Threshold.{
  disqualifies, pends, is_acknowledged, tolerates, resolve_threshold_lists, meets_threshold-eq-all,
}
use planner_critic_engine.RunBudget.{RunBudget, record_spend, check}
use planner_critic_engine.RunBudget.Latch.{spend, replan, read, after, after_all, check-latched}
use planner_critic_engine.Loop.Budget.{SpendState, fresh_spend, budget_exceeded}
use planner_critic_engine.Loop.Budget.Ceilings.{any_over, budget_exceeded-any_over}
use planner_critic_engine.Loop.Oscillation.{detect_oscillation, last_entries}
use planner_critic_engine.Loop.Oscillation.Repeats.{detect_oscillation-eq}
use planner_critic_engine.Loop.Samples.{goal, no_hash}

-- A blocker of a gate, a blocker and a warning of the critic.
abbrev gate_blocker : Finding
gate_blocker = gate_finding swapped "g" none blocker "unsafe_ordering" "order"

abbrev critic_blocker : Finding
critic_blocker = record gate_blocker { id = "c"; heuristic_family = some risk }

abbrev critic_warning : Finding
critic_warning = record critic_blocker { id = "w"; severity = warning }

abbrev objections : List Finding
objections = critic_blocker ∷ critic_warning ∷ []

resolve_threshold_lists_example :
    ((resolve_threshold (gate_blocker ∷ objections) balanced).1.blockers
      ≡ filter (disqualifies balanced) (gate_blocker ∷ objections))
    × ((resolve_threshold (gate_blocker ∷ objections) balanced).1.pending_warnings
        ≡ filter (pends balanced) (gate_blocker ∷ objections))
    × ((resolve_threshold (gate_blocker ∷ objections) balanced).1.acknowledged
        ≡ filter (is_acknowledged balanced) (gate_blocker ∷ objections))
resolve_threshold_lists_example = resolve_threshold_lists (gate_blocker ∷ objections) balanced

meets_threshold-eq-all_example :
    meets_threshold objections strict ≡ all (tolerates strict) objections
meets_threshold-eq-all_example = meets_threshold-eq-all objections strict

evaluate_contract-bound_example :
    (evaluate_contract objections (bind_acceptance no_hash goal "engine")
      ≡ ok (resolve_threshold objections balanced))
    × (evaluate_contract objections
          (revise_contract no_hash (bind_acceptance no_hash goal "engine") (some "board"))
        ≡ ok (resolve_threshold objections balanced))
evaluate_contract-bound_example =
    evaluate_contract-bound no_hash goal "engine" (some "board") objections

-- A budget whose spending is below its ceiling.
abbrev cheap : RunBudget
cheap = record {
  run_max_budget_usd = some 10;
  run_max_depth = some 2;
  run_max_time = some 60;
  cumulative_spend_usd = 8;
  cascading_depth = 0;
  started_at = 0;
  exceeded = none;
}

check-latched_example :
    is_some
      (check 5
        (after_all (replan ∷ read 3 ∷ []) (after (spend 2) (after_all (spend 1 ∷ []) cheap)))).0
    ≡ true
unfolding record_spend
check-latched_example = check-latched (spend 1 ∷ []) (replan ∷ read 3 ∷ []) (spend 2) 5 cheap refl

abbrev shapes : List ℕ
shapes = 7 ∷ 1 ∷ 2 ∷ 1 ∷ 3 ∷ []

detect_oscillation-eq_example :
    detect_oscillation shapes 4
    ≡ (not (ltb (length shapes) 4) && not (nodup (last_entries 4 shapes)))
detect_oscillation-eq_example = detect_oscillation-eq shapes 4

-- One call too many.
abbrev spent : SpendState
spent = record fresh_spend { calls_used = 3 }

budget_exceeded-any_over_example :
    ((budget_exceeded goal.constraints.budget spent).0
      ≡ (spent.exceeded || any_over goal.constraints.budget spent))
    × ((budget_exceeded goal.constraints.budget spent).1.exceeded
        ≡ (budget_exceeded goal.constraints.budget spent).0)
    × ((budget_exceeded goal.constraints.budget spent).1.revisions_used ≡ spent.revisions_used)
    × ((budget_exceeded goal.constraints.budget spent).1.calls_used ≡ spent.calls_used)
    × ((budget_exceeded goal.constraints.budget spent).1.tokens_used ≡ spent.tokens_used)
budget_exceeded-any_over_example = budget_exceeded-any_over goal.constraints.budget spent
