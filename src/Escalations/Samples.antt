-- ===== src/Escalations/Samples.antt =====
-- The theorems on the manager of escalations at a small store.
use planner_critic_engine.Prelude.{
  ◌+◌, false, some, none, List, [], ◌∷◌, ◌≡◌, refl, ok, any, string_eq, string_ord,
}
use planner_critic_engine.Schema.Plan.{PlanVersion}
use planner_critic_engine.Types.{Escalation, open_, approved}
use planner_critic_engine.Loop.Regression.{is_gate_blocker}
use planner_critic_engine.Store.{
  InMemoryStore, empty_store, put_plan_version, put_findings, put_escalation, get_escalation,
  get_plan, list_plans,
}
use planner_critic_engine.Store.Protocol.{memory_store}
use planner_critic_engine.Escalations.{Audit, decided, resolve, recritique, patch_and_recritique}
use planner_critic_engine.Escalations.Decisions.{
  Call, create_call, resolve_call, patch_call, manage, manage-undecided,
}
use planner_critic_engine.Escalations.Patches.{
  patch_and_recritique-clean, patch_and_recritique-silent,
}
use planner_critic_engine.Escalations.Answers.{resolve_answers}
use planner_critic_engine.Loop.Samples.{ordered, swapped, program}

abbrev question : Escalation
question = record {
  id = "e1";
  plan_id = "plan-1";
  version = 1;
  blocker_finding_id = none;
  question = "patch or abandon?";
  status = open_;
  resolution = none;
  resolved_by = none;
}

abbrev asked : InMemoryStore
asked = put_escalation (put_plan_version empty_store ordered) question

abbrev silent : Audit
silent plan findings = ok []

abbrev calls : List Call
calls =
    resolve_call "e1" approved "fine" (some "bob")
    ∷ create_call (record question { id = "e2" })
    ∷ patch_call "plan-1" swapped silent
    ∷ []

manage-undecided_example :
    get_escalation (manage (some "alice") calls asked) "plan-1" ≡ some question
manage-undecided_example =
    manage-undecided (some "alice") calls asked "plan-1" question refl refl refl

abbrev patch : PlanVersion
patch = record ordered { version = 2; parent_version = some "plan-1" }

abbrev patched : InMemoryStore
patched = put_findings (put_plan_version asked patch) "plan-1" 2 []

patch_and_recritique-clean_example :
    (any is_gate_blocker [] ≡ false)
    × (get_plan patched "plan-1" (some 2) ≡ some patch)
    × (current : PlanVersion) × (get_plan asked "plan-1" none ≡ some current)
    × (patch.version ≡ current.version + 1)
    × (patch.parent_version ≡ some current.id)
unfolding program patch_and_recritique recritique get_plan
patch_and_recritique-clean_example =
    patch_and_recritique-clean asked patched "plan-1" patch silent [] refl

patch_and_recritique-silent_example : any is_gate_blocker [] ≡ false
unfolding program patch_and_recritique recritique get_plan
patch_and_recritique-silent_example =
    patch_and_recritique-silent asked patched "plan-1" patch silent [] [] refl refl refl

resolve_answers_example : resolve (some "alice") asked "e1" approved "fine" (some "alice") ≡ (
  put_escalation asked (decided question approved "fine" (some "alice")),
  ok (decided question approved "fine" (some "alice")),
)
unfolding list_plans
resolve_answers_example =
    resolve_answers (some "alice") asked "plan-1" question approved "fine" (some "alice") refl refl
      refl refl refl
