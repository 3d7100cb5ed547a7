-- ===== src/Loop/Samples/Applied.antt =====
-- The other theorems about the loop and its repair, applied to the sample run.
use mathlib.Core.List.{Perm}
use planner_critic_engine.Prelude.{
  ◌≤◌, true, false, none, some, List, [], ◌∷◌, ◌≡◌, refl, ok, is_empty, is_some, length, filter,
  All,
}
use planner_critic_engine.Schema.Goal.{balanced}
use planner_critic_engine.Schema.Plan.{is_high_blast}
use planner_critic_engine.Schema.Validate.{hard_edges, validate_graph}
use planner_critic_engine.Types.{Finding, blocker}
use planner_critic_engine.Critique.Mode.{heuristic_only}
use planner_critic_engine.Approval.{resolve_threshold}
use planner_critic_engine.Gates.Base.{gate_finding}
use planner_critic_engine.Gates.Clean.{high_blast_all}
use planner_critic_engine.Gates.Groups.{in_group}
use planner_critic_engine.Gates.Ordering.{ordering_sane}
use planner_critic_engine.Loop.Roles.{LoopConfig, Critic, default_config}
use planner_critic_engine.Loop.Controller.{run_loop}
use planner_critic_engine.Loop.Judge.{auto_converge}
use planner_critic_engine.Loop.Outcome.{auto_converge-none}
use planner_critic_engine.Loop.Reorder.{topological_reorder}
use planner_critic_engine.Loop.Reorder.Sound.{topological_reorder-ordering_sane}
use planner_critic_engine.Loop.Approved.{InOrder, run_loop-Guarded}
use planner_critic_engine.Loop.Spend.Run.{WithinRun, run_loop-Within}
use planner_critic_engine.Loop.Independence.{run_loop-silent}
use planner_critic_engine.Loop.Samples.{
  task, swapped, ordered, goal, planner, silent_critic, fresh, no_hash, clock, ordered_result,
  ordered_session, run_loop-swapped,
}

run_loop-Guarded_example :
    (is_empty ordered.tasks ≡ false)
    × (high_blast_all (λ t. is_some t.verification) ordered ≡ true)
    × (high_blast_all (λ t. is_some t.rollback) ordered ≡ true)
    × All (InOrder ordered) (hard_edges ordered)
    × (length (filter is_high_blast (filter (in_group "g") ordered.tasks)) ≤ 1)
run_loop-Guarded_example =
    run_loop-Guarded no_hash goal default_config planner silent_critic [] none clock fresh
      ordered_session ordered_result "g" run_loop-swapped refl

run_loop-Within_example :
    WithinRun goal default_config fresh.spend
      (run_loop no_hash goal default_config planner silent_critic [] none clock fresh).1.spend
run_loop-Within_example =
    run_loop-Within no_hash goal default_config planner silent_critic [] none clock fresh

abbrev heuristic : LoopConfig
heuristic = record default_config { mode = heuristic_only }

-- A critic that objects to every plan.
abbrev objecting : Critic
objecting = record {
  audit = λ n p fs. some (gate_finding p "objection" none blocker "missing_task" "no" ∷ []);
  audit_diff = none;
}

run_loop-silent_example :
    run_loop no_hash goal heuristic planner silent_critic [] none clock fresh
    ≡ run_loop no_hash goal heuristic planner objecting [] none clock fresh
run_loop-silent_example =
    run_loop-silent no_hash goal heuristic planner silent_critic objecting [] none clock fresh refl

swapped_valid : validate_graph swapped ≡ true
unfolding validate_graph
swapped_valid = refl

swapped_reordered : topological_reorder swapped ≡ ok (some ordered)
unfolding topological_reorder
swapped_reordered = refl

topological_reorder-ordering_sane_example :
    Perm ordered.tasks swapped.tasks
    × (ordered ≡ record swapped { tasks = ordered.tasks })
    × (ordering_sane ordered ≡ ok [])
topological_reorder-ordering_sane_example =
    topological_reorder-ordering_sane swapped ordered swapped_valid swapped_reordered

abbrev blocking : List Finding
blocking = gate_finding swapped "b" none blocker "unsafe_ordering" "order" ∷ []

abbrev partial : LoopConfig
partial = record default_config { converge_policy = "auto_converge" }

blocking_unmet : (resolve_threshold blocking balanced).0 ≡ false
unfolding resolve_threshold
blocking_unmet = refl

auto_converge-none_example :
    auto_converge goal partial planner balanced 3 clock swapped
      (some (record swapped { tasks = task "b" ∷ []; dependencies = [] }))
      blocking
    ≡ none
auto_converge-none_example =
    auto_converge-none goal partial planner balanced 3 clock swapped
      (some (record swapped { tasks = task "b" ∷ []; dependencies = [] })) blocking blocking_unmet
