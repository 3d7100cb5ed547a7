-- ===== src/Gates/DepCycles.antt =====
-- gates/dep_cycles.py: Kahn's algorithm over the hard dependencies.
use planner_critic_engine.Prelude.{
  ℕ, zero, suc, ◌+◌, ◌-◌, String, Bool, none, some, List, [], ◌∷◌, ◌++◌, map, Result, ok, text,
  repr_list, sorted, string_ord, Dict, dict_get, dict_set, ◌==◌, string_eq, nat_eq, length,
  is_empty, filter, if◌then◌else◌, ltb,
}
use planner_critic_engine.Schema.Plan.{PlanVersion, Task}
use planner_critic_engine.Schema.Validate.{hard_edges}
use planner_critic_engine.Types.{Finding, blocker}
use planner_critic_engine.Gates.Base.{gate_id, gate_finding}

-- `adjacency[node]`: the successors in the order of the edges, with repetitions.
abbrev pub successors : List (String × String) → String → List String
successors edges node = map (λ d. d.1) (filter (λ d. d.0 == node) edges)

-- A read of the `defaultdict`.
abbrev pub degree : Dict String ℕ → String → ℕ
degree m k = elim (dict_get m k) [ none ↦ 0 | some n ↦ n ]

-- `in_degree.setdefault(task.id, 0)` for each task
abbrev pub zero_degrees : Dict String ℕ → List Task → Dict String ℕ
zero_degrees m [] = m
zero_degrees m (t ∷ ts) =
    zero_degrees (elim (dict_get m t.id) [ none ↦ dict_set m t.id 0 | some n ↦ m ]) ts

-- `in_degree[dst] += 1` for each edge
abbrev pub count_edges : Dict String ℕ → List (String × String) → Dict String ℕ
count_edges m [] = m
count_edges m ((src, dst) ∷ es) = count_edges (dict_set m dst (degree m dst + 1)) es

-- The inner loop: the degrees, and the nodes that become free, in order.
abbrev pub relax : Dict String ℕ → List String → Dict String ℕ × List String
relax m [] = (m, [])
relax m (n ∷ ns) =
    let left = degree m n - 1 in
    let rest = relax (dict_set m n left) ns in if left == 0 then (rest.0, n ∷ rest.1) else rest

-- The `while queue` loop; the result is the degrees and the number of processed nodes. A node joins the
-- queue only when its degree comes to 0, so there are at most as many rounds as nodes.
unfoldable pub kahn :
    ℕ → List (String × String) → Dict String ℕ → List String → ℕ → Dict String ℕ × ℕ
kahn zero edges m queue processed = (m, processed)
kahn (suc fuel) edges m [] processed = (m, processed)
kahn (suc fuel) edges m (node ∷ queue) processed =
    let (m', free) = relax m (successors edges node) in
    kahn fuel edges m' (queue ++ free) (processed + 1)

abbrev pub in_degrees : PlanVersion → Dict String ℕ
in_degrees plan = count_edges (zero_degrees [] plan.tasks) (hard_edges plan)

abbrev pub keys_where : (ℕ → Bool) → Dict String ℕ → List String
keys_where p m = map (λ e. e.0) (filter (λ e. p e.1) m)

unfoldable pub dep_cycles : PlanVersion → Result (List Finding)
unfolding kahn repr_list sorted
dep_cycles plan =
    let degrees = in_degrees plan in
    let (left, processed) =
      kahn (length degrees) (hard_edges plan) degrees (keys_where (λ n. n == 0) degrees) 0 in
    if is_empty (hard_edges plan)
    then ok []
    else if processed == length plan.tasks
    then ok []
    else ok (
        gate_finding plan (gate_id "no_dep_cycles" plan "") none blocker "dependency_cycle" (
          text (
            "dependency cycle detected among tasks: "
            ∷ repr_list (sorted (keys_where (ltb 0) left))
            ∷ []))
        ∷ [])
