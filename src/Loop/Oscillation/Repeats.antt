-- ===== src/Loop/Oscillation/Repeats.antt =====
-- The test of the window, against the absence of repetitions.
use planner_critic_engine.Prelude.{
  ℕ, ◌≤◌, true, false, not, ◌&&◌, List, [], ◌∷◌, ◌≡◌, refl, sym, ◌∙◌, ap, arith, Eq, ◌==◌, contains,
  nodup, any, length, ltb, Bool-cases, inl, inr,
}
use planner_critic_engine.Loop.Oscillation.{detect_oscillation, count, last_entries}

module _ {ℓ} {A : Type ℓ} ⦃e : Eq A⦄ where
  count-absent : (a : A) (l : List A) → contains l a ≡ false → count a l ≡ 0
  count-absent a [] h = refl
  count-absent a (x ∷ l) h = ground (arith, count-absent a l)

  count-present : (a : A) (l : List A) → contains l a ≡ true → 1 ≤ count a l
  count-present a [] h = cc
  count-present a (x ∷ l) h = ground (arith, count-present a l)

  -- Counts only grow with the list.
  any-count_grows :
      (x : A) (l k : List A)
      → any (λ s. ltb 1 (count s l)) k ≡ true
      → any (λ s. ltb 1 (count s (x ∷ l))) k ≡ true
  any-count_grows x l [] h = cc
  any-count_grows x l (y ∷ k) h = ground (arith, any-count_grows x l k)

  repeated : (l : List A) → nodup l ≡ false → any (λ s. ltb 1 (count s l)) l ≡ true
  repeated [] h = cc
  repeated (x ∷ l) h = elim (Bool-cases (contains l x)) [
    | inl twice ↦ ground (arith, e.beq_iff x x, count-present x l twice)
    | inr once ↦
        let later = any-count_grows x l l (repeated l (ground (arith, once))) in
        ground (arith, later)
  ]

  single :
      (l k : List A)
      → ((a : A) → contains k a ≡ true → count a l ≤ 1)
      → any (λ s. ltb 1 (count s l)) k ≡ false
  single l [] h = refl
  single l (x ∷ k) h =
      let here = h x (ground (arith, e.beq_iff x x)) in
      let rest = single l k (λ a m. h a (ground arith)) in ground (arith, here, rest)

  count-nodup : (a : A) (l : List A) → nodup l ≡ true → count a l ≤ 1
  count-nodup a [] once = omega arith
  count-nodup a (x ∷ l) once = elim (Bool-cases (x == a)) [
    | inl same ↦
        let x-a : x ≡ a = (e.beq_iff x a).0 same in
        let gone = count-absent a l (ap (λ y. contains l y) (sym x-a) ∙ ground arith) in
        ground (arith, same, gone)
    | inr other ↦ ground (arith, other, count-nodup a l)
  ]

  -- With a full window of history, the loop sees an oscillation exactly if some signature comes twice in
  -- the window; with less it never does.
  pub detect_oscillation-eq :
      (signatures : List A) (window : ℕ)
      → detect_oscillation signatures window
        ≡ (not (ltb (length signatures) window) && not (nodup (last_entries window signatures)))
  unfolding detect_oscillation
  detect_oscillation-eq signatures window =
      let recent = last_entries window signatures in
      elim (Bool-cases (nodup recent)) [
        | inl once ↦ ground (arith, once, single recent recent (λ a _. count-nodup a recent once))
        | inr twice ↦ ground (arith, twice, repeated recent twice)
      ]
