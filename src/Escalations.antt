-- ===== src/Escalations.antt =====
-- escalation.py: the manager of escalations over any store. Every operation returns the store that it
-- leaves and what it returns or raises. The critic is a parameter that answers findings or raises.
pub mod Decisions
pub mod Patches
pub mod Answers
mod Samples
use planner_critic_engine.Prelude.{
  ℕ, ◌+◌, String, Bool, true, false, not, ◌&&◌, ◌||◌, Option, none, some, List, [], ◌∷◌, ◌++◌, map,
  ◌==◌, string_eq, nat_eq, option_eq, Result, ok, err, value_error, permission_error, ◌>>=◌, strip,
  codes, is_empty, find, filter, Dict, dict_get, dict_set, concat_map, if◌then◌else◌, is_none,
}
use planner_critic_engine.Schema.Plan.{PlanVersion}
use planner_critic_engine.Schema.Acceptance.{AcceptanceContract}
use planner_critic_engine.Types.{
  Finding, Escalation, EscalationStatus, is_open, escalation_status_eq, is_blocker,
}
use planner_critic_engine.Gates.{run_deterministic_gates}
use planner_critic_engine.Loop.Regression.{is_gate_blocker}
use planner_critic_engine.Store.Protocol.{PlanStore}

abbrev pub Audit : Type 0
Audit = PlanVersion → List Finding → Result (List Finding)

-- The authority that is bound to the manager lets a principal decide.
abbrev pub may_decide : Option String → Option String → Bool
may_decide none principal = true
may_decide (some authority) principal = principal == some authority

-- `existing is not None and existing.status == "open"`
abbrev pub has_open : Option Escalation → Bool
has_open none = false
has_open (some e) = is_open e.status

abbrev pub has_status : Option EscalationStatus → Escalation → Bool
has_status none e = true
has_status (some st) e = e.status == st

-- What a listing takes from a plan.
abbrev pub listed : Option EscalationStatus → Option Escalation → List Escalation
listed status none = []
listed status (some e) = if has_status status e then e ∷ [] else []

-- `{f.id: f for f in findings}`
abbrev pub by_id : Dict String Finding → List Finding → Dict String Finding
by_id m [] = m
by_id m (f ∷ fs) = by_id (dict_set m f.id f) fs

-- `seen.setdefault(finding.id, finding)` for each finding
abbrev pub add_missing : Dict String Finding → List Finding → Dict String Finding
add_missing m [] = m
add_missing m (f ∷ fs) =
    add_missing (if is_none (dict_get m f.id) then m ++ (f.id, f) ∷ [] else m) fs

-- The findings of the gates and then the critic's, one under each id.
abbrev pub merge_findings : List Finding → List Finding → List Finding
merge_findings gate_findings critic_findings =
    map (λ e. e.1) (add_missing (by_id [] gate_findings) critic_findings)

abbrev pub refuse_blockers : List Finding → Result (List Finding)
refuse_blockers findings =
    if is_empty (filter is_gate_blocker findings) then ok findings else err value_error

-- The findings on a patch, or an error where a blocker of a gate remains.
unfoldable pub recritique : Audit → PlanVersion → Result (List Finding)
recritique audit patch = do
  gate_findings ← run_deterministic_gates [] patch
  critic_findings ← audit patch gate_findings
  refuse_blockers (merge_findings gate_findings critic_findings)

-- The patch is the next revision of the current one.
abbrev pub is_next : PlanVersion → PlanVersion → Bool
is_next current patch =
    patch.version == current.version + 1 && patch.parent_version == some current.id

abbrev pub decided : Escalation → EscalationStatus → String → Option String → Escalation
decided e decision note principal = record e {
  status = decision;
  resolution = some note;
  resolved_by = principal;
}

module _ {S : Type 0} ⦃store : PlanStore S⦄ where
  unfoldable pub create : S → Escalation → S × Result Escalation
  unfolding strip
  create s e = elim (store.get_plan s e.plan_id (some e.version)) [
    | none ↦ (s, err value_error)
    | some plan ↦
        if is_empty (strip (codes e.question))
        then (s, err value_error)
        else if has_open (store.get_escalation s e.plan_id)
        then (s, err value_error)
        else (store.put_escalation s e, ok e)
  ]

  unfoldable pub list_escalations : S → Option EscalationStatus → List Escalation
  list_escalations s status =
      concat_map (λ plan. listed status (store.get_escalation s plan.id)) (store.list_plans s none)

  -- `_get_by_id`
  unfoldable pub get_by_id : S → String → Option Escalation
  unfolding list_escalations
  get_by_id s escalation_id = find (λ e. e.id == escalation_id) (list_escalations s none)

  unfoldable pub resolve :
      Option String → S → String → EscalationStatus → String → Option String → S × Result Escalation
  unfolding get_by_id
  resolve authority s escalation_id decision note principal =
      if not (may_decide authority principal)
      then (s, err permission_error)
      else elim (get_by_id s escalation_id) [
        | none ↦ (s, err value_error)
        | some e ↦ if not (is_open e.status) then (s, err value_error) else (
          store.put_escalation s (decided e decision note principal),
          ok (decided e decision note principal),
        )
      ]

  -- The two writes at the end of a patch.
  abbrev pub store_patch :
      S → String → PlanVersion → Result (List Finding) → S × Result (List Finding)
  store_patch s plan_id patch (err x) = (s, err x)
  store_patch s plan_id patch (ok l) =
      (store.put_findings (store.put_plan_version s patch) plan_id patch.version l, ok l)

  unfoldable pub patch_and_recritique : S → String → PlanVersion → Audit → S × Result (List Finding)
  unfolding recritique
  patch_and_recritique s plan_id patch audit = elim (store.get_plan s plan_id none) [
    | none ↦ (s, err value_error)
    | some current ↦
        if not (is_next current patch)
        then (s, err value_error)
        else store_patch s plan_id patch (recritique audit patch)
  ]

  abbrev goal_of : S → Option Escalation → Option String
  goal_of s none = none
  goal_of s (some e) = elim (store.get_plan s e.plan_id none) [
    | none ↦ none
    | some p ↦ some p.goal_id
  ]

  abbrev authority_of : S → Option String → Option String
  authority_of s none = none
  authority_of s (some goal_id) = elim (store.get_acceptance_contract s goal_id) [
    | none ↦ none
    | some c ↦ some c.approving_authority
  ]

  -- The authority that `build_escalation_manager` binds, from a goal or an escalation.
  unfoldable pub build_escalation_manager : S → Option String → Option String → Option String
  build_escalation_manager s (some goal_id) escalation_id = authority_of s (some goal_id)
  build_escalation_manager s none none = none
  build_escalation_manager s none (some escalation_id) =
      authority_of s (goal_of s (store.get_escalation s escalation_id))
