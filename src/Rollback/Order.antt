-- ===== src/Rollback/Order.antt =====
-- The topological order of a forward plan: each task comes after its prerequisites, and the tasks
-- without any are in it.
use planner_critic_engine.Prelude.{
  ℕ, zero, suc, ◌≤◌, String, true, false, List, [], ◌∷◌, ◌++◌, ok, >>=-eq-ok, Dict, ◌==◌, string_eq,
  nat_eq, contains, contains-append, contains-sorted, nodup, length, is_empty, sorted, ◌≡◌, refl,
  sym, ap, ◌∙◌, subst, arith, Bool-cases, inl, inr, append_assoc, append-nil,
}
use planner_critic_engine.Schema.Plan.{PlanVersion}
use planner_critic_engine.Schema.Validate.{hard_edges}
use planner_critic_engine.Gates.Clean.{found_eq}
use planner_critic_engine.Gates.DepCycles.{successors, degree, relax}
use planner_critic_engine.Gates.Positions.{IsOrderedFrom}
use planner_critic_engine.Loop.Reorder.{predecessors}
use planner_critic_engine.Rollback.{by_index, known_degrees, order_loop, topological_order}
use planner_critic_engine.Rollback.Counts.{
  Edges, waiting, relax-degree, relax-free, times-sorted, length-sorted, waiting-placed,
  none_waiting, nodup-middle,
}
use planner_critic_engine.Gates.Positions.{ids}
use planner_critic_engine.Rollback.Start.{
  starts, starts-degree, degree-starts, starts-length, start-degree, start-nodup, start-known,
}

module _ (plan : PlanVersion) where
  -- The nodes that the loop appends.
  emitted : ℕ → Dict String ℕ → List String → List String
  emitted zero m queue = []
  emitted (suc fuel) m [] = []
  emitted (suc fuel) m (node ∷ queue) =
      let (m', free) = relax m (sorted ⦃o = by_index plan⦄ (successors (hard_edges plan) node)) in
      node ∷ emitted fuel m' (queue ++ free)

  order_loop-emitted :
      (fuel : ℕ) (m : Dict String ℕ) (queue order : List String)
      → order_loop plan fuel m queue order ≡ order ++ emitted fuel m queue
  unfolding order_loop emitted
  order_loop-emitted zero m queue order = sym (append-nil order)
  order_loop-emitted (suc fuel) m [] order = sym (append-nil order)
  order_loop-emitted (suc fuel) m (node ∷ queue) order =
      order_loop-emitted fuel _ _ (order ++ node ∷ [])
      ∙ append_assoc order (node ∷ []) (emitted fuel _ _)

  -- The front of the queue is placed while the rounds last.
  emitted-contains :
      (fuel : ℕ) (m : Dict String ℕ) (front back : List String) (x : String)
      → length front ≤ fuel
      → contains front x ≡ true
      → contains (emitted fuel m (front ++ back)) x ≡ true
  unfolding emitted
  emitted-contains fuel m [] back x short h = cc
  emitted-contains zero m (node ∷ front) back x short h = absurd (omega (arith, short))
  emitted-contains (suc fuel) m (node ∷ front) back x short h = elim (Bool-cases (node == x)) [
    | inl same ↦ rw same refl
    | inr other ↦
        let next = relax m (sorted ⦃o = by_index plan⦄ (successors (hard_edges plan) node)) in
        let later =
          emitted-contains fuel next.0 front (back ++ next.1) x (omega (arith, short))
            (rw other at h) in
        rw other
          (ap (λ q. contains (emitted fuel next.0 q) x) (append_assoc front back next.1) ∙ later)
  ]

  -- The degrees count what is not placed; who is in the queue waits for nothing.
  abbrev Counts : Dict String ℕ → List String → Type 0
  Counts m order = (k : String) → degree m k ≡ waiting order k (hard_edges plan)

  abbrev IsFree : Dict String ℕ → List String → Type 0
  IsFree m queue = (k : String) → contains queue k ≡ true → degree m k ≡ 0

  after : Dict String ℕ → String → Dict String ℕ × List String
  after m node = relax m (sorted ⦃o = by_index plan⦄ (successors (hard_edges plan) node))

  after-Counts :
      (m : Dict String ℕ) (order : List String) (node : String)
      → contains order node ≡ false
      → Counts m order
      → Counts (after m node).0 (order ++ node ∷ [])
  unfolding after
  after-Counts m order node new counts k = omega (
    arith,
    relax-degree m (sorted ⦃o = by_index plan⦄ (successors (hard_edges plan) node)) k,
    times-sorted ⦃o = by_index plan⦄ k (successors (hard_edges plan) node),
    waiting-placed order node k (hard_edges plan) new,
    counts k,
  )

  after-IsFree :
      (m : Dict String ℕ) (node : String) (queue : List String)
      → IsFree m (node ∷ queue)
      → IsFree (after m node).0 (queue ++ (after m node).1)
  unfolding after
  after-IsFree m node queue free k h =
      let ns = sorted ⦃o = by_index plan⦄ (successors (hard_edges plan) node) in
      elim (Bool-cases (contains queue k)) [
        | inl old ↦ omega (arith, relax-degree m ns k, free k (ground arith))
        | inr other ↦ relax-free m ns k (ground (arith, contains-append queue (relax m ns).1 k))
      ]

  -- Each placed node has its prerequisites placed before it, as far as no node is placed twice.
  emitted-IsOrderedFrom :
      (fuel : ℕ) (m : Dict String ℕ) (queue order front back : List String)
      → Counts m order
      → IsFree m queue
      → emitted fuel m queue ≡ front ++ back
      → nodup (order ++ front) ≡ true
      → IsOrderedFrom (predecessors (hard_edges plan)) order front
  unfolding emitted after
  emitted-IsOrderedFrom fuel m queue order [] back counts free split once = tt
  emitted-IsOrderedFrom zero m queue order (x ∷ front) back counts free split once = cc
  emitted-IsOrderedFrom (suc fuel) m [] order (x ∷ front) back counts free split once = cc
  emitted-IsOrderedFrom (suc fuel) m (node ∷ queue) order (x ∷ front) back counts free split once =
      let same : node ≡ x = cc in
      let new = nodup-middle order front x once in
      (
        none_waiting order x (hard_edges plan)
            (sym (counts x) ∙ free x (ground (arith, string_eq.beq_iff node x, same))),
        emitted-IsOrderedFrom fuel (after m node).0 (queue ++ (after m node).1) (order ++ x ∷ [])
            front back
            (subst (λ y. Counts (after m node).0 (order ++ y ∷ [])) same
              (after-Counts m order node (rw same new) counts))
            (after-IsFree m node queue free) (cc)
            (ap nodup (append_assoc order (x ∷ []) front) ∙ once),
      )

no_prerequisite :
    (es : Edges) (k : String) → is_empty (predecessors es k) ≡ true → waiting [] k es ≡ 0
no_prerequisite [] k h = refl
no_prerequisite ((src, dst) ∷ es) k h = ground (arith, no_prerequisite es k)

module _ (plan : PlanVersion) (order : List String) (run : topological_order plan ≡ ok order) where
  -- The order, as far as it names no task twice, has each task after its prerequisites.
  pub topological_order-IsOrderedFrom :
      (front back : List String)
      → order ≡ front ++ back
      → nodup front ≡ true
      → IsOrderedFrom (predecessors (hard_edges plan)) [] front
  unfolding topological_order
  topological_order-IsOrderedFrom front back split once =
      let (z, counted, made) = >>=-eq-ok (known_degrees plan) _ run in
      let queue = sorted ⦃o = by_index plan⦄ (starts z) in
      let whole : emitted plan (length z) z queue ≡ order =
        sym (order_loop-emitted plan (length z) z queue []) ∙ found_eq _ order made in
      emitted-IsOrderedFrom plan (length z) z queue [] front back (start-degree plan z counted)
        (λ k h.
          starts-degree z k (start-nodup plan z counted)
            (sym (contains-sorted ⦃o = by_index plan⦄ (starts z) k) ∙ h))
        (whole ∙ split) once

  -- A task without prerequisites is in the order.
  pub topological_order-contains :
      (k : String)
      → contains (ids plan.tasks) k ≡ true
      → is_empty (predecessors (hard_edges plan) k) ≡ true
      → contains order k ≡ true
  unfolding topological_order
  topological_order-contains k is_task none_before =
      let (z, counted, made) = >>=-eq-ok (known_degrees plan) _ run in
      let queue = sorted ⦃o = by_index plan⦄ (starts z) in
      let zero_degree : degree z k ≡ 0 =
        start-degree plan z counted k ∙ no_prerequisite (hard_edges plan) k none_before in
      let started : contains queue k ≡ true =
        contains-sorted ⦃o = by_index plan⦄ (starts z) k
        ∙ degree-starts z k (start-known plan z counted k is_task) zero_degree in
      let placed =
        emitted-contains plan (length z) z queue [] k
          (omega (arith, starts-length z, length-sorted ⦃o = by_index plan⦄ (starts z))) started in
      ap (λ l. contains l k)
        (sym (found_eq _ order made)
          ∙ order_loop-emitted plan (length z) z queue []
          ∙ ap (emitted plan (length z) z) (sym (append-nil queue)))
      ∙ placed
