-- ===== src/Loop/Histogram/Fires.antt =====
-- When the test for cycling histograms answers, and what its answer means.
use planner_critic_engine.Prelude.{
  ℕ, zero, suc, ◌+◌, ◌-◌, ◌≤◌, ◌<◌, Bool, true, false, some, List, [], ◌∷◌, reverse, ◌≡◌, refl, sym,
  ◌∙◌, ap, arith, ok, >>=-eq-ok, Eq, ◌==◌, nat_eq, string_eq, pair_eq, list_eq, get_elem?, length,
  ltb, Bool-cases, inl, inr,
}
use mathlib.Core.List.{reverse_aux}
use planner_critic_engine.Loop.Histogram.{
  FamilyHistogram, mass, from_end, repeats, detect_histogram_cycling,
}

length-reverse_aux : {A : Type 0} (xs r : List A) → length (reverse_aux xs r) ≡ length xs + length r
length-reverse_aux [] r = omega arith
length-reverse_aux (x ∷ xs) r = omega (arith, length-reverse_aux xs (x ∷ r))

get_elem?-below :
    {A : Type 0} (xs : List A) (i : ℕ) → i < length xs → (a : A) × (get_elem? xs i ≡ some a)
get_elem?-below [] i h = absurd (omega arith)
get_elem?-below (x ∷ xs) zero h = (x, refl)
get_elem?-below (x ∷ xs) (suc i) h = get_elem?-below xs i (omega arith)

from_end-below : {A : Type 0} (l : List A) (i : ℕ) → i < length l → (a : A) × (from_end l i ≡ ok a)
from_end-below l i h =
    let (a, found) = get_elem?-below (reverse l) i (omega (arith, length-reverse_aux l [])) in
    (a, ground (arith, found))

repeats-ok :
    (h : List FamilyHistogram) (latest : FamilyHistogram) (p n : ℕ)
    → p + n ≤ length h
    → (b : Bool) × (repeats h latest p n ≡ ok b)
unfolding repeats
repeats-ok h latest p zero enough = (false, refl)
repeats-ok h latest p (suc n) enough =
    let (old, found) = from_end-below h p (omega arith) in
    let (b, rest) = repeats-ok h latest (suc p) n (omega arith) in
    elim (Bool-cases (latest == old)) [
      | inl same ↦ (true, rw (found, same) refl)
      | inr other ↦ (b, rw (found, other) rest)
    ]

-- The test raises no error where a lag of at least one is asked for, however short the history is.
pub detect_histogram_cycling-ok :
    (histograms : List FamilyHistogram) (max_lag : ℕ)
    → 1 ≤ max_lag
    → (b : Bool) × (detect_histogram_cycling histograms max_lag ≡ ok b)
unfolding detect_histogram_cycling
detect_histogram_cycling-ok histograms max_lag lag =
    elim (Bool-cases (ltb (length histograms) (max_lag + 1))) [
      | inl short ↦ (false, rw short refl)
      | inr long ↦
          let (latest, at_0) = from_end-below histograms 0 (ground (arith, long)) in
          let (previous, at_1) = from_end-below histograms 1 (ground (arith, long)) in
          elim (Bool-cases (latest == previous)) [
            | inl same ↦ (false, rw (long, at_0, at_1, same) refl)
            | inr changed ↦ elim (Bool-cases (ltb (mass latest) (mass previous))) [
              | inl better ↦ (false, rw (long, at_0, at_1, changed, better) refl)
              | inr flat ↦
                  let (b, answer) =
                    repeats-ok histograms latest 2 (max_lag - 1) (ground (arith, long)) in
                  (b, rw (long, at_0, at_1, changed, flat) answer)
            ]
          ]
    ]

abbrev eq_list : Eq FamilyHistogram
eq_list = list_eq

repeats-finds :
    (h : List FamilyHistogram) (latest : FamilyHistogram) (p n : ℕ)
    → repeats h latest p n ≡ ok true
    → (q : ℕ) × (p ≤ q) × (q < p + n) × (from_end h q ≡ ok latest)
unfolding repeats
repeats-finds h latest p zero found = cc
repeats-finds h latest p (suc n) found =
    let (old, at_p, answer) = >>=-eq-ok (from_end h p) _ found in
    elim (Bool-cases (latest == old)) [
      | inl same ↦
          let is : latest ≡ old = (eq_list.beq_iff latest old).0 same in
          (p, omega arith, omega arith, at_p ∙ ap ok (sym is))
      | inr other ↦
          let (q, low, high, at_q) = repeats-finds h latest (suc p) n (rw other at answer) in
          (q, omega arith, omega arith, at_q)
    ]

-- Where the test fires, the newest histogram is one from at least two and at most `max_lag` revisions ago,
-- differs from the last one, and counts no fewer blockers than it.
pub detect_histogram_cycling-fires :
    (histograms : List FamilyHistogram) (max_lag : ℕ)
    → detect_histogram_cycling histograms max_lag ≡ ok true
    → (latest previous : FamilyHistogram) × (p : ℕ) × (from_end histograms 0 ≡ ok latest)
      × (from_end histograms 1 ≡ ok previous)
      × (from_end histograms p ≡ ok latest)
      × (2 ≤ p)
      × (p ≤ max_lag)
      × ((latest == previous) ≡ false)
      × (mass previous ≤ mass latest)
unfolding detect_histogram_cycling
detect_histogram_cycling-fires histograms max_lag fired =
    elim (Bool-cases (ltb (length histograms) (max_lag + 1))) [
      | inl short ↦ cc (rw short at fired)
      | inr long ↦
          let (latest, at_0, then_) = >>=-eq-ok (from_end histograms 0) _ (rw long at fired) in
          let (previous, at_1, answer) = >>=-eq-ok (from_end histograms 1) _ then_ in
          elim (Bool-cases (latest == previous)) [
            | inl same ↦ cc (rw same at answer)
            | inr changed ↦ elim (Bool-cases (ltb (mass latest) (mass previous))) [
              | inl better ↦ cc (rw (changed, better) at answer)
              | inr flat ↦
                  let (p, low, high, at_p) =
                    repeats-finds histograms latest 2 (max_lag - 1)
                      (rw (changed, flat) at answer) in
                  (
                    latest,
                    previous,
                    p,
                    at_0,
                    at_1,
                    at_p,
                    low,
                    omega arith,
                    changed,
                    ground (arith, flat),
                  )
            ]
          ]
    ]
