-- ===== src/Runtime/ReGate.antt =====
-- regate.py: the preconditions of a task against live state. A run of a probe is a parameter, which says
-- whether the observed value matched.
pub mod Summary
use planner_critic_engine.Prelude.{
  ℕ, ◌+◌, ◌-◌, String, Bool, true, false, not, Option, none, some, List, [], ◌∷◌, ◌++◌, map, Result,
  ok, err, value_error, ◌>>=◌, ◌==◌, string_eq, nat_eq, length, find, filter, any, subst,
  length-filter-le, append-nil, append_assoc, is_some, is_empty, if◌then◌else◌, ◌≡◌, refl, sym, ap,
  ◌∙◌, arith, Bool-cases, inl, inr, ◌⊎◌, Option-cases, contains, all, ◌&&◌, validation_error,
}
use planner_critic_engine.Schema.Plan.{EnvProbe, Precondition, Task}
use planner_critic_engine.Gates.Clean.{found_eq}
use planner_critic_engine.Types.{ApprovedPlan}

pub data Mode : Type 0 where
  before_each_step switched_off : Mode

pub data GateStatus : Type 0 where
  pass stale : GateStatus

-- `replan_triggered` is always False, and left out.
pub record ReGateResult : Type 0 where
  pub status : GateStatus
  pub stale_preconditions : List String
  pub checked : ℕ
  pub probe_backed : ℕ
  pub unprobe_backed : ℕ
  pub total : ℕ

abbrev pub is_pass : GateStatus → Bool
is_pass pass = true
is_pass stale = false

abbrev pub unchecked : ReGateResult
unchecked = record {
  status = pass;
  stale_preconditions = [];
  checked = 0;
  probe_backed = 0;
  unprobe_backed = 0;
  total = 0;
}

-- `_find_task`
unfoldable pub find_task : ApprovedPlan → String → Result Task
find_task approved task_id = elim (find (λ t. t.id == task_id) approved.plan.tasks) [
  | none ↦ err value_error
  | some t ↦ ok t
]

-- The local variables of the loop over the preconditions.
pub record Tally : Type 0 where
  pub stale : List String
  pub checked : ℕ
  pub probe_backed : ℕ

-- `ProbeKind`
abbrev pub probe_kinds : List String
probe_kinds = "env_var" ∷ "db_query" ∷ "http_check" ∷ "deploy_status" ∷ []

-- `ProbeRequest(kind, query, expected)` is valid.
abbrev pub is_request : EnvProbe → Bool
is_request probe =
    contains probe_kinds probe.kind && not (probe.query == "") && not (probe.expected == "")

module _ (run_probe : EnvProbe → Bool) where
  abbrev pub tally_probe : Tally → Precondition → EnvProbe → Tally
  tally_probe t p probe = record {
    stale = if run_probe probe then t.stale else t.stale ++ p.description ∷ [];
    checked = t.checked + 1;
    probe_backed = t.probe_backed + 1;
  }

  abbrev pub tally_one : Tally → Precondition → Option EnvProbe → Result Tally
  tally_one t p none = ok t
  tally_one t p (some probe) =
      if is_request probe then ok (tally_probe t p probe) else err validation_error

  unfoldable pub tally : Tally → List Precondition → Result Tally
  tally t [] = ok t
  tally t (p ∷ ps) = do next ← tally_one t p p.probe; tally next ps

  abbrev pub summary : ℕ → Tally → ReGateResult
  summary total t = record {
    status = if is_empty t.stale then pass else stale;
    stale_preconditions = t.stale;
    checked = t.checked;
    probe_backed = t.probe_backed;
    unprobe_backed = total - t.probe_backed;
    total = total;
  }

  unfoldable pub check_preconditions : ApprovedPlan → String → Mode → Result ReGateResult
  unfolding find_task tally
  check_preconditions approved task_id switched_off = ok unchecked
  check_preconditions approved task_id before_each_step = do
    task ← find_task approved task_id
    t ← tally (record { stale = []; checked = 0; probe_backed = 0 }) task.preconditions
    ok (summary (length task.preconditions) t)
