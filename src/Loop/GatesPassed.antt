-- ===== src/Loop/GatesPassed.antt =====
-- The deterministic gates cannot be talked out of a blocker: what the loop approves has passed them.
use planner_critic_engine.Prelude.{
  ℕ, String, true, false, ◌&&◌, Option, none, some, List, [], ◌∷◌, ◌++◌, ◌≡◌, refl, sym, Result, ok,
  err, arith, string_eq, any, any-append, append_assoc, Bool-cases, inl, inr, ◌>>=◌,
}
use planner_critic_engine.Schema.Goal.{Goal, RiskTolerance}
use planner_critic_engine.Schema.Plan.{PlanVersion}
use planner_critic_engine.Schema.Acceptance.{AcceptanceContract}
use planner_critic_engine.Types.{Finding}
use planner_critic_engine.Critique.Mode.{has_blocker}
use planner_critic_engine.Gates.Base.{Gate}
use planner_critic_engine.Gates.{run_deterministic_gates}
use planner_critic_engine.Approval.{resolve_threshold}
use planner_critic_engine.Approval.Threshold.{disqualifies, threshold_tests}
use planner_critic_engine.Loop.Regression.{is_gate_blocker}
use planner_critic_engine.Loop.Reorder.{apply_ordering_auto_repair}
use planner_critic_engine.Loop.Roles.{LoopConfig, LoopResult, Session, Planner, Critic, approved}
use planner_critic_engine.Loop.Escalate.{escalate}
use planner_critic_engine.Loop.GatePhase.{
  Gated, gated, keep_repair, repair_phase, keep_closed, closer_phase, gate_phase, has_unverified,
}
use planner_critic_engine.Loop.Controller.{effective_cap, run_loop}
use planner_critic_engine.Loop.Outcome.{Holds-ok}
use planner_critic_engine.Loop.Induction.{rounds-Holds, run_loop-Holds}

-- The gate findings of a phase end with the findings of the gates on the plan that it hands on.
abbrev IsCurrent : List Gate → Gated → Type 0
IsCurrent extra_gates g =
    (trace findings : List Finding) × (run_deterministic_gates extra_gates g.plan ≡ ok findings)
    × (g.gate_findings ≡ trace ++ findings)

abbrev OnOk {ℓ} : {A : Type ℓ} → (A → Type 0) → Result A → Type 0
OnOk P (ok a) = P a
OnOk P (err e) = Unit

bind-OnOk {ℓ κ} :
    {A : Type ℓ} {B : Type κ} (P : B → Type 0) (m : Result A) (f : A → Result B)
    → ((a : A) → m ≡ ok a → OnOk P (f a))
    → OnOk P (m >>= f)
bind-OnOk P (ok a) f h = h a refl
bind-OnOk P (err e) f h = tt

module _ (config : LoopConfig) (extra_gates : List Gate) where
  keep_repair-IsCurrent :
      (g : Gated) (repaired : Option PlanVersion) (trace : List Finding)
      → IsCurrent extra_gates g
      → OnOk (IsCurrent extra_gates) (keep_repair config extra_gates g repaired trace)
  keep_repair-IsCurrent g none trace h = h
  keep_repair-IsCurrent g (some repaired) trace h =
      bind-OnOk (IsCurrent extra_gates) (run_deterministic_gates extra_gates repaired) _
        λ recheck clean. elim (Bool-cases (has_blocker recheck)) [
          | inl bad ↦ rw bad h
          | inr good ↦ rw good (trace, recheck, clean, refl)
        ]

  repair_phase-IsCurrent :
      (g : Gated)
      → IsCurrent extra_gates g
      → OnOk (IsCurrent extra_gates) (repair_phase config extra_gates g)
  unfolding repair_phase
  repair_phase-IsCurrent g h =
      elim (Bool-cases (config.auto_repair && has_blocker g.gate_findings)) [
        | inr off ↦ rw off h
        | inl on ↦ rw on (
            bind-OnOk (IsCurrent extra_gates) (apply_ordering_auto_repair g.plan g.gate_findings) _
              (λ x _. keep_repair-IsCurrent g x.0 x.1 h))
      ]

  keep_closed-IsCurrent :
      (g : Gated) (x : Option (PlanVersion × List Finding))
      → IsCurrent extra_gates g
      → OnOk (IsCurrent extra_gates) (keep_closed config extra_gates g x)
  keep_closed-IsCurrent g none h = h
  keep_closed-IsCurrent g (some (closed, trace)) h =
      bind-OnOk (IsCurrent extra_gates) (run_deterministic_gates extra_gates closed) _
        λ recheck clean.
          (g.trace ++ trace, recheck, clean, sym (append_assoc g.trace trace recheck))

  closer_phase-IsCurrent :
      (g : Gated)
      → IsCurrent extra_gates g
      → OnOk (IsCurrent extra_gates) (closer_phase config extra_gates g)
  unfolding closer_phase
  closer_phase-IsCurrent g h =
      elim (Bool-cases (config.precondition_closer && has_unverified g.gate_findings)) [
        | inr off ↦ rw off h
        | inl on ↦ rw on (keep_closed-IsCurrent g _ h)
      ]

  gate_phase-OnOk :
      (plan : PlanVersion) → OnOk (IsCurrent extra_gates) (gate_phase config extra_gates plan)
  unfolding gate_phase
  gate_phase-OnOk plan =
      bind-OnOk (IsCurrent extra_gates) (run_deterministic_gates extra_gates plan) _
        λ findings clean.
          bind-OnOk (IsCurrent extra_gates) (repair_phase config extra_gates (gated plan findings))
            _
            λ repaired e.
              closer_phase-IsCurrent repaired
                (rw e at (repair_phase-IsCurrent (gated plan findings) ([], findings, clean, refl)))

  -- Whatever was repaired, the findings of the gate phase contain those of all gates on the plan that
  -- it hands on.
  pub gate_phase-IsCurrent :
      (plan : PlanVersion) (g : Gated)
      → gate_phase config extra_gates plan ≡ ok g
      → IsCurrent extra_gates g
  gate_phase-IsCurrent plan g e = rw e at (gate_phase-OnOk plan)

gate_blocker-disqualifies :
    (r : RiskTolerance) (fs : List Finding)
    → any (disqualifies r) fs ≡ false
    → any is_gate_blocker fs ≡ false
gate_blocker-disqualifies r [] h = refl
gate_blocker-disqualifies r (f ∷ fs) h = ground (arith, gate_blocker-disqualifies r fs)

-- Under a threshold that is met, no part of the findings holds a gate blocker.
middle-clean :
    (r : RiskTolerance) (before fs after : List Finding)
    → (resolve_threshold ((before ++ fs) ++ after) r).0 ≡ true
    → any is_gate_blocker fs ≡ false
middle-clean r before fs after met = ground (
  arith,
  any-append is_gate_blocker (before ++ fs) after,
  any-append is_gate_blocker before fs,
  gate_blocker-disqualifies r ((before ++ fs) ++ after),
  threshold_tests ((before ++ fs) ++ after) r met,
)

-- What an approval says of its plan.
abbrev GatesPassed : List Gate → LoopResult → Type 0
GatesPassed extra_gates result =
    result.status ≡ approved
    → (findings : List Finding) × (run_deterministic_gates extra_gates result.plan ≡ ok findings)
      × (any is_gate_blocker findings ≡ false)

-- A plan that `run_loop` approves, under whatever planner, critic, configuration, posture and budget,
-- passes all deterministic gates: they run on it without an error and report no gate blocker.
pub run_loop-GatesPassed :
    (sha256 : String → String) (goal : Goal) (config : LoopConfig) (planner : Planner)
    (critic : Critic) (extra_gates : List Gate) (acceptance : Option AcceptanceContract)
    (clock : ℕ → ℕ → ℕ) (s s' : Session) (result : LoopResult)
    → run_loop sha256 goal config planner critic extra_gates acceptance clock s ≡ (ok result, s')
    → result.status ≡ approved
    → (findings : List Finding) × (run_deterministic_gates extra_gates result.plan ≡ ok findings)
      × (any is_gate_blocker findings ≡ false)
run_loop-GatesPassed sha256 goal config planner critic extra_gates acceptance clock s s' result e =
    (Holds-ok _ (run_loop sha256 goal config planner critic extra_gates acceptance clock s)
      (run_loop-Holds sha256 goal config planner critic extra_gates acceptance clock
        (λ r. GatesPassed extra_gates) (λ r result spend h. h)
        (λ r left revision c s.
          rounds-Holds goal config planner critic extra_gates r (effective_cap config goal) clock
            (GatesPassed extra_gates) (λ plan findings reason index. unfold escalate in λ e. cc)
            (λ plan g rest gated met e.
              let (before, fs, clean, split) =
                gate_phase-IsCurrent config extra_gates plan g gated in
              (fs, clean, middle-clean r before fs rest (rw split at met)))
            left revision c s)
        s)
      e).2
