-- ===== src/Gates/VerificationOrdering.antt =====
-- gates/verification_ordering.py: a verified high-blast mutation is not consumed before its check.
use planner_critic_engine.Prelude.{
  ℕ, String, Bool, false, ◌&&◌, not, Option, none, some, List, [], ◌∷◌, ◌++◌, Result, ok, ◌>>=◌,
  collect, or_key_error, text, repr, codes, lower, strip, starts_with, ◌==◌, string_eq, option_eq,
  dict_get, get_elem?, concat_map, ltb, is_some, if◌then◌else◌,
}
use planner_critic_engine.Schema.Plan.{PlanVersion, Task, Dependency, is_hard, is_high_blast}
use planner_critic_engine.Types.{Finding, blocker}
use planner_critic_engine.Gates.Base.{gate_id, gate_finding, id_to_index}

-- `_is_pre_state_check`
unfoldable pub is_pre_state_check : Task → Bool
unfolding lower strip starts_with
is_pre_state_check t = elim t.verification [
  | none ↦ false
  | some v ↦ starts_with (lower (strip (codes v.what))) (codes "pre-state")
]

-- The parenthesis of the message, from a detail that may be empty.
abbrev where_text : String → String
where_text detail = if detail == "" then "" else text (" (" ∷ detail ∷ ")" ∷ [])

-- `_finding`
abbrev pub consumer_finding : PlanVersion → String → String → String → Finding
consumer_finding plan consumer producer detail =
    let found =
      gate_finding plan
        (gate_id "verification_ordering" plan (text (":" ∷ consumer ∷ ":" ∷ producer ∷ [])))
        (some consumer) blocker "verification_after_consumer"
        (text (
          "task "
          ∷ repr consumer
          ∷ where_text detail
          ∷ " consumes the state produced by high-risk task "
          ∷ repr producer
          ∷ " without waiting for its verification point"
          ∷ [])) in
    record found {
      edge_id = some (text (producer ∷ "->" ∷ consumer ∷ []));
      evidence_refs = text ("hard_dep:" ∷ producer ∷ "->" ∷ consumer ∷ []) ∷ [];
    }

-- The two placements that make a verification vacuous: an output check before the mutation, a
-- pre-state check after it.
abbrev pub misplaced : PlanVersion → String → String → ℕ → ℕ → Task → List Finding
misplaced plan producer consumer_id i j consumer =
    if ltb i j && not (is_pre_state_check consumer)
    then consumer_finding plan consumer_id producer "" ∷ []
    else if ltb j i && is_pre_state_check consumer
    then consumer_finding plan consumer_id producer "pre-state check ran after the mutation" ∷ []
    else []

-- The consumer of one dependency, where it is a task of the plan.
abbrev pub check_consumer : PlanVersion → String → String → Option ℕ → Result (List Finding)
check_consumer plan producer consumer_id none = ok []
check_consumer plan producer consumer_id (some i) = do
  j ← or_key_error (dict_get (id_to_index plan) producer)
  consumer ← or_key_error (get_elem? plan.tasks i)
  ok (misplaced plan producer consumer_id i j consumer)

abbrev pub check_dependency : PlanVersion → Task → Dependency → Result (List Finding)
check_dependency plan producer d =
    if (d.from_task == producer.id) && is_hard d.kind
    then check_consumer plan producer.id d.to_task (dict_get (id_to_index plan) d.to_task)
    else ok []

-- The siblings of a parallel group that write the same target.
abbrev pub racing : PlanVersion → Task → Option String → List Finding
racing plan producer none = []
racing plan producer (some g) =
    concat_map
      (λ sibling.
        if not (sibling.id == producer.id)
          && sibling.parallel_group == producer.parallel_group
          && sibling.target == producer.target
          && is_some (dict_get (id_to_index plan) sibling.id)
        then consumer_finding plan sibling.id producer.id (text ("parallel group " ∷ repr g ∷ []))
          ∷ []
        else [])
      plan.tasks

unfoldable pub check_producer : PlanVersion → Task → Result (List Finding)
check_producer plan producer =
    if is_high_blast producer && is_some producer.verification
    then (do
      found ← collect (check_dependency plan producer) plan.dependencies
      ok (found ++ racing plan producer producer.parallel_group))
    else ok []

unfoldable pub verification_ordering : PlanVersion → Result (List Finding)
unfolding check_producer is_pre_state_check repr
verification_ordering plan = collect (check_producer plan) plan.tasks
