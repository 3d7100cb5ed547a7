-- ===== src/Gates/Ordering.antt =====
-- gates/ordering.py: a task must not stand before one of its hard prerequisites.
use planner_critic_engine.Prelude.{
  String, some, List, [], ◌∷◌, Result, ok, ◌>>=◌, collect, or_key_error, text, repr, sorted,
  pair_ord, string_ord, string_eq, pair_eq, dict_get, unique, ltb, if◌then◌else◌,
}
use planner_critic_engine.Schema.Plan.{PlanVersion}
use planner_critic_engine.Schema.Validate.{hard_edges}
use planner_critic_engine.Types.{Finding, blocker}
use planner_critic_engine.Gates.Base.{gate_id, gate_finding, id_to_index}

abbrev ordering_finding : PlanVersion → String → String → Finding
ordering_finding plan pred succ =
    let found =
      gate_finding plan (gate_id "ordering_sane" plan (text (":" ∷ pred ∷ []))) (some succ) blocker
        "unsafe_ordering"
        (text ("task " ∷ repr succ ∷ " is ordered before its hard dependency " ∷ repr pred ∷ [])) in
    record found {
      edge_id = some (text (pred ∷ "->" ∷ succ ∷ []));
      evidence_refs = text ("hard_dep:" ∷ pred ∷ "->" ∷ succ ∷ []) ∷ [];
    }

-- The body of the loop over the sorted hard edges.
unfoldable pub check_edge : PlanVersion → String × String → Result (List Finding)
check_edge plan (pred, succ) = do
  i ← or_key_error (dict_get (id_to_index plan) pred)
  j ← or_key_error (dict_get (id_to_index plan) succ)
  ok (if ltb j i then ordering_finding plan pred succ ∷ [] else [])

unfoldable pub ordering_sane : PlanVersion → Result (List Finding)
unfolding sorted check_edge
ordering_sane plan = collect (check_edge plan) (sorted (unique (hard_edges plan)))
