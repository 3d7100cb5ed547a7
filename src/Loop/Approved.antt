-- ===== src/Loop/Approved.antt =====
-- What an approval says of the plan itself, read off the gates that it has passed.
use planner_critic_engine.Prelude.{
  ℕ, ◌≤◌, String, true, false, Option, some, List, ◌++◌, ◌≡◌, ok, is_some, is_empty, length, filter,
  dict_get, string_eq, pair_eq, All, All-contains, any,
}
use planner_critic_engine.Schema.Goal.{Goal}
use planner_critic_engine.Schema.Plan.{PlanVersion, is_high_blast}
use planner_critic_engine.Schema.Validate.{hard_edges}
use planner_critic_engine.Schema.Acceptance.{AcceptanceContract}
use planner_critic_engine.Types.{Finding}
use planner_critic_engine.Gates.Base.{Gate, id_to_index}
use planner_critic_engine.Gates.{gates, run_deterministic_gates}
use planner_critic_engine.Gates.Clean.{
  IsClean, run_gates-IsClean, high_blast_all, schema_valid-IsClean, verification_present-IsClean,
  rollback_present-IsClean, ordering_sane-IsClean,
}
use planner_critic_engine.Gates.Groups.{in_group, parallel_safety-IsClean}
use planner_critic_engine.Loop.Regression.{is_gate_blocker}
use planner_critic_engine.Loop.Roles.{LoopConfig, LoopResult, Session, Planner, Critic, approved}
use planner_critic_engine.Loop.Controller.{run_loop}
use planner_critic_engine.Loop.GatesPassed.{run_loop-GatesPassed}

-- Every gate, built in or extra, is clean on a plan that passes.
gates-IsClean :
    (extra_gates : List Gate) (plan : PlanVersion) (findings : List Finding)
    → run_deterministic_gates extra_gates plan ≡ ok findings
    → any is_gate_blocker findings ≡ false
    → All (IsClean plan) (gates ++ extra_gates)
unfolding run_deterministic_gates
gates-IsClean extra_gates plan findings run clean =
    run_gates-IsClean (gates ++ extra_gates) plan findings run clean

-- A prerequisite does not stand behind the task that needs it.
abbrev pub InOrder : PlanVersion → String × String → Type 0
InOrder plan edge =
    (i j : ℕ) × (dict_get (id_to_index plan) edge.0 ≡ some i)
    × (dict_get (id_to_index plan) edge.1 ≡ some j)
    × (i ≤ j)

passed :
    (extra_gates : List Gate) (plan : PlanVersion) (findings : List Finding) (group : String)
    → run_deterministic_gates extra_gates plan ≡ ok findings
    → any is_gate_blocker findings ≡ false
    → (is_empty plan.tasks ≡ false)
      × (high_blast_all (λ t. is_some t.verification) plan ≡ true)
      × (high_blast_all (λ t. is_some t.rollback) plan ≡ true)
      × All (InOrder plan) (hard_edges plan)
      × (length (filter is_high_blast (filter (in_group group) plan.tasks)) ≤ 1)
passed extra_gates plan findings group run clean =
    let clean_gates = gates-IsClean extra_gates plan findings run clean in
    let from_third = clean_gates.1.1 in
    (
      (schema_valid-IsClean plan clean_gates.0).0,
      verification_present-IsClean plan from_third.1.0,
      rollback_present-IsClean plan from_third.1.1.1.0,
      All-contains (InOrder plan) (hard_edges plan)
          (λ edge listed. ordering_sane-IsClean plan edge.0 edge.1 from_third.0 listed),
      parallel_safety-IsClean plan group from_third.1.1.1.1.1.1.0,
    )

-- A plan that `run_loop` approves has a task; each high-blast task carries a verification and a rollback;
-- every hard dependency joins two tasks of which the prerequisite does not come later; and no parallel
-- group holds two high-blast tasks.
pub run_loop-Guarded :
    (sha256 : String → String) (goal : Goal) (config : LoopConfig) (planner : Planner)
    (critic : Critic) (extra_gates : List Gate) (acceptance : Option AcceptanceContract)
    (clock : ℕ → ℕ → ℕ) (s s' : Session) (result : LoopResult) (group : String)
    → run_loop sha256 goal config planner critic extra_gates acceptance clock s ≡ (ok result, s')
    → result.status ≡ approved
    → (is_empty result.plan.tasks ≡ false)
      × (high_blast_all (λ t. is_some t.verification) result.plan ≡ true)
      × (high_blast_all (λ t. is_some t.rollback) result.plan ≡ true)
      × All (InOrder result.plan) (hard_edges result.plan)
      × (length (filter is_high_blast (filter (in_group group) result.plan.tasks)) ≤ 1)
run_loop-Guarded sha256 goal config planner critic extra_gates acceptance clock s s' result group
      run granted =
    let (findings, gated, clean) =
      run_loop-GatesPassed sha256 goal config planner critic extra_gates acceptance clock s s'
        result run granted in
    passed extra_gates result.plan findings group gated clean
