-- ===== src/Loop/Spend/Run.antt =====
-- How often the critic is asked, and how many revisions are counted, over a whole run.
use planner_critic_engine.Prelude.{
  ℕ, zero, suc, ◌+◌, ◌≤◌, String, Option, none, some, List, ◌≡◌, subst, Result, ok, err, arith, inl,
  inr, ◌⊎◌,
}
use planner_critic_engine.Schema.Goal.{Goal, RiskTolerance}
use planner_critic_engine.Schema.Plan.{PlanVersion}
use planner_critic_engine.Schema.Acceptance.{AcceptanceContract, risk_tolerance}
use planner_critic_engine.Gates.Base.{Gate}
use planner_critic_engine.Loop.Roles.{
  LoopConfig, LoopResult, Session, Carry, Planner, Critic, Reply, raised, untyped, answer,
}
use planner_critic_engine.Loop.Budget.{SpendState, record_revision}
use planner_critic_engine.Loop.Judge.{Step, done, again, process}
use planner_critic_engine.Loop.Controller.{
  effective_cap, round, rounds, first_carry, contract_of, run_with, start, run, run_loop,
}
use planner_critic_engine.Loop.Spend.{process-spend}
use planner_critic_engine.Loop.Spend.Calls.{Below, OneCall, round-OneCall}

-- A count that grew only below the limit.
abbrev pub Limited : Option ℕ → ℕ → ℕ → Type 0
Limited none before after = Unit
Limited (some l) before after = (after ≤ before) ⊎ (after ≤ l)

-- What a run may add to the counters.
abbrev pub WithinRun : Goal → LoopConfig → SpendState → SpendState → Type 0
WithinRun goal config before after =
    (after.revisions_used ≤ before.revisions_used + effective_cap config goal)
    × (after.calls_used ≤ before.calls_used + effective_cap config goal)
    × Limited goal.constraints.budget.max_calls before.calls_used after.calls_used

Limited-refl : (limit : Option ℕ) (n : ℕ) → Limited limit n n
Limited-refl none n = tt
Limited-refl (some l) n = inl (omega arith)

Limited-one :
    (limit : Option ℕ) (a b c : ℕ)
    → b ≡ a + 1
    → Below limit a
    → Limited limit b c
    → Limited limit a c
Limited-one none a b c one below h = tt
Limited-one (some l) a b c one below (inl few) = inr (omega (arith, one, below, few))
Limited-one (some l) a b c one below (inr few) = inr few

module _ (goal : Goal) (config : LoopConfig) (planner : Planner) (critic : Critic)
    (extra_gates : List Gate) (r : RiskTolerance) (cap : ℕ) (clock : ℕ → ℕ → ℕ) where
  -- The counters after some rounds.
  abbrev Within : ℕ → SpendState → SpendState → Type 0
  Within left a b =
      (b.revisions_used ≤ a.revisions_used + left)
      × (b.calls_used ≤ a.calls_used + left)
      × Limited goal.constraints.budget.max_calls a.calls_used b.calls_used

  Within-round :
      (left : ℕ) (a b c : SpendState)
      → OneCall goal.constraints.budget.max_calls (record_revision a) b
      → Within left b c
      → Within (suc left) a c
  unfolding record_revision
  Within-round left a b c (revisions, inl same) (few, calls, limited) = (
    omega (arith, revisions),
    omega (arith, same),
    subst (λ n. Limited goal.constraints.budget.max_calls n c.calls_used) same limited,
  )
  Within-round left a b c (revisions, inr (one, below)) (few, calls, limited) = (
    omega (arith, revisions),
    omega (arith, one),
    Limited-one goal.constraints.budget.max_calls a.calls_used b.calls_used c.calls_used one below
        limited,
  )

  pub rounds-Within :
      (left revision : ℕ) (c : Carry) (s : Session)
      → Within left s.spend
          (rounds goal config planner critic extra_gates r cap clock left revision c s).1.spend
  unfolding rounds
  rounds-Within zero revision c s =
      (omega arith, omega arith, Limited-refl goal.constraints.budget.max_calls s.spend.calls_used)
  rounds-Within (suc left) revision c s =
      go (round goal config planner critic extra_gates r cap clock revision c s)
        (round-OneCall goal config planner critic extra_gates r cap clock revision c s)
        (λ c' s'. rounds-Within left (suc revision) c' s')
    where
      go :
          (x : Step × Session)
          → OneCall goal.constraints.budget.max_calls (record_revision s.spend) x.1.spend
          → ((c' : Carry) (s' : Session)
              → Within left s'.spend
                  (rounds goal config planner critic extra_gates r cap clock left
                    (suc revision)
                    c'
                    s').1.spend)
          → Within
              (suc left)
              s.spend
              (elim x.0 as (λ x. Result LoopResult × Session) [
                | done result ↦ (result, x.1)
                | again c' ↦
                    rounds goal config planner critic extra_gates r cap clock left
                      (suc revision)
                      c'
                      x.1
              ]).1.spend
      go (done result, s') h k = Within-round left s.spend s'.spend s'.spend h (
        omega arith,
        omega arith,
        Limited-refl goal.constraints.budget.max_calls s'.spend.calls_used,
      )
      go (again c', s') h k =
          Within-round left s.spend s'.spend
            (rounds goal config planner critic extra_gates r cap clock left (suc revision) c'
              s').1.spend
            h (k c' s')

module _ (sha256 : String → String) (goal : Goal) (config : LoopConfig) (planner : Planner)
    (critic : Critic) (extra_gates : List Gate) (acceptance : Option AcceptanceContract)
    (clock : ℕ → ℕ → ℕ) where
  run_with-Within :
      (plan : PlanVersion) (s : Session) (x : Result RiskTolerance)
      → WithinRun goal config s.spend
          (run_with sha256 goal config planner critic extra_gates acceptance clock plan s x).1.spend
  run_with-Within plan s (err e) =
      (omega arith, omega arith, Limited-refl goal.constraints.budget.max_calls s.spend.calls_used)
  run_with-Within plan s (ok r) =
      rounds-Within goal config planner critic extra_gates r (effective_cap config goal) clock
        (effective_cap config goal) 1 (first_carry plan) s

  start-Within :
      (s : Session) (reply : Reply)
      → WithinRun goal config s.spend
          (start sha256 goal config planner critic extra_gates acceptance clock s reply).1.spend
  start-Within s raised =
      (omega arith, omega arith, Limited-refl goal.constraints.budget.max_calls s.spend.calls_used)
  start-Within s untyped =
      (omega arith, omega arith, Limited-refl goal.constraints.budget.max_calls s.spend.calls_used)
  start-Within s (answer plan) =
      subst
        (λ a.
          WithinRun goal config a
            (start sha256 goal config planner critic extra_gates acceptance clock s
              (answer plan)).1.spend)
        (process-spend plan s)
        (run_with-Within plan (process plan s)
          (risk_tolerance (contract_of sha256 goal acceptance)))

pub run_loop-Within :
    (sha256 : String → String) (goal : Goal) (config : LoopConfig) (planner : Planner)
    (critic : Critic) (extra_gates : List Gate) (acceptance : Option AcceptanceContract)
    (clock : ℕ → ℕ → ℕ) (s : Session)
    → WithinRun goal config s.spend
        (run_loop sha256 goal config planner critic extra_gates acceptance clock s).1.spend
unfolding run_loop run
run_loop-Within sha256 goal config planner critic extra_gates acceptance clock s =
    start-Within sha256 goal config planner critic extra_gates acceptance clock s
      (planner.decompose goal)
