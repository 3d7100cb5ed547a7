-- ===== src/Loop/Reorder/Place.antt =====
-- The loop of `topological_reorder`: it places every id once, each after its hard prerequisites.
use planner_critic_engine.Prelude.{
  ℕ, zero, suc, String, true, not, Option, none, some, List, [], ◌∷◌, ◌++◌, ◌≡◌, refl, ◌∙◌, arith,
  ◌==◌, string_eq, Dict, contains, contains-filter, nodup, nodup-filter, without-perm, filter,
  Bool-cases, inl, inr, append-nil, append_assoc, ltb,
}
use mathlib.Core.List.{Perm}
use mathlib.Core.List.Perm
use planner_critic_engine.Gates.Positions.{IsOrderedFrom}
use planner_critic_engine.Loop.Reorder.{
  predecessors, is_available, pick_min, index_or_zero, without, place,
}

pick_min-contains :
    (index : Dict String ℕ) (best : String) (xs : List String)
    → contains (best ∷ xs) (pick_min index best xs) ≡ true
pick_min-contains index best [] = ground (arith, string_eq.beq_iff best best)
pick_min-contains index best (x ∷ xs) =
    elim (Bool-cases (ltb (index_or_zero index x) (index_or_zero index best))) [
      | inl smaller ↦ rw smaller (ground (arith, pick_min-contains index x xs))
      | inr kept ↦ rw kept (ground (arith, pick_min-contains index best xs))
    ]

module _ (index : Dict String ℕ) (edges : List (String × String)) where
  -- What the loop returns: the placed ids, then the remaining ones in an order that respects the edges.
  abbrev Places : List String → List String → List String → Type 0
  Places placed remaining result =
      (xs : List String) × (result ≡ placed ++ xs)
      × IsOrderedFrom (predecessors edges) placed xs
      × Perm xs remaining
      × ((k : String) → contains xs k ≡ contains remaining k)
      × (nodup xs ≡ true)

  pub place-Places :
      (fuel : ℕ) (placed remaining result : List String)
      → nodup remaining ≡ true
      → place fuel index edges placed remaining ≡ some result
      → Places placed remaining result
  unfolding place
  place-Places zero placed [] result once e =
      ([], ground (arith, append-nil placed), tt, Perm.refl _, λ k. refl, refl)
  place-Places (suc fuel) placed [] result once e =
      ([], ground (arith, append-nil placed), tt, Perm.refl _, λ k. refl, refl)
  place-Places zero placed (r ∷ rs) result once e = cc
  place-Places (suc fuel) placed (r ∷ rs) result once e =
      go (filter (is_available edges placed) (r ∷ rs)) refl
        (λ pick h.
          place-Places fuel (placed ++ pick ∷ []) (without pick (r ∷ rs)) result
            (nodup-filter (λ y. not (pick == y)) (r ∷ rs) once) h)
        e
    where
      step :
          (pick : String)
          → contains (filter (is_available edges placed) (r ∷ rs)) pick ≡ true
          → Places (placed ++ pick ∷ []) (without pick (r ∷ rs)) result
          → Places placed (r ∷ rs) result
      step pick found (xs, split, order, same, members, distinct) =
          let both = contains-filter (is_available edges placed) (r ∷ rs) pick in
          (
            pick ∷ xs,
            split ∙ append_assoc placed (pick ∷ []) xs,
            (ground arith, order),
            Perm.trans (Perm.cons pick same)
                (Perm.symm (without-perm pick (r ∷ rs) once (ground arith))),
            (λ k. ground (
              arith,
              members k,
              both,
              string_eq.beq_iff pick k,
              contains-filter (λ y. not (pick == y)) (r ∷ rs) k,
            )),
            ground (
              arith,
              members pick,
              string_eq.beq_iff pick pick,
              contains-filter (λ y. not (pick == y)) (r ∷ rs) pick,
            ),
          )

      go :
          (available : List String)
          → filter (is_available edges placed) (r ∷ rs) ≡ available
          → ((pick : String)
              → place fuel index edges (placed ++ pick ∷ []) (without pick (r ∷ rs)) ≡ some result
              → Places (placed ++ pick ∷ []) (without pick (r ∷ rs)) result)
          → (elim available as (λ l. Option (List String)) [
            | [] ↦ none
            | a ∷ others ↦
                let pick = pick_min index a others in
                place fuel index edges (placed ++ pick ∷ []) (without pick (r ∷ rs))
          ])
            ≡ some result
          → Places placed (r ∷ rs) result
      go [] same rec h = cc
      go (a ∷ others) same rec h =
          let pick = pick_min index a others in
          step pick (rw same (pick_min-contains index a others)) (rec pick h)
