-- ===== src/Runtime/Shadow.antt =====
-- shadow.py: a run that only observes.
use planner_critic_engine.Prelude.{
  ℕ, String, Option, none, some, [], Result, ok, err, is_empty, if◌then◌else◌, string_eq, nat_eq,
}
use planner_critic_engine.Schema.Goal.{Goal}
use planner_critic_engine.Types.{Escalation}
use planner_critic_engine.Loop.Roles.{Planner, Critic, LoopConfig, LoopResult, Session}
use planner_critic_engine.Loop.Controller.{run_loop}
use planner_critic_engine.Store.Protocol.{PlanStore}

module _ {S : Type 0} ⦃store : PlanStore S⦄ where
  abbrev pub put_if_any : S → LoopResult → S
  put_if_any s result =
      if is_empty result.findings
      then store.put_plan_version s result.plan
      else store.put_findings (store.put_plan_version s result.plan) result.plan.id
          result.plan.version result.findings

  abbrev pub put_question : S → Option Escalation → S
  put_question s none = s
  put_question s (some e) = store.put_escalation s e

  -- `_record_shadow`
  unfoldable pub record_shadow : S → LoopResult → S
  record_shadow s result = put_question (put_if_any s result) result.escalation

  abbrev pub persist : Option S → Result LoopResult → Option S
  unfolding record_shadow
  persist none r = none
  persist (some s) (err e) = some s
  persist (some s) (ok result) = some (record_shadow s result)

  -- The stamp `mode` of the result is left out.
  unfoldable pub run_shadow :
      (String → String)
      → Goal
      → Planner
      → Critic
      → LoopConfig
      → (ℕ → ℕ → ℕ)
      → Session
      → Option S
      → Result LoopResult × Option S
  unfolding run_loop record_shadow
  run_shadow sha256 goal planner critic config clock session s =
      let (result, _) = run_loop sha256 goal config planner critic [] none clock session in
      (result, persist s result)
