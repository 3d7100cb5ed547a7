-- ===== src/Loop/Histogram.antt =====
-- loop/histogram.py: the histogram of blocker families, and the test for its cycling.
pub mod Fires
use planner_critic_engine.Prelude.{
  ℕ, zero, suc, ◌+◌, ◌-◌, String, Bool, true, false, Option, none, some, List, [], ◌∷◌, reverse,
  Dict, dict_get, dict_set, Result, ok, err, index_error, ◌>>=◌, ◌==◌, nat_eq, string_eq, pair_eq,
  list_eq, nat_ord, string_ord, pair_ord, get_elem?, length, sorted, ltb, if◌then◌else◌,
}
use planner_critic_engine.Types.{Finding, HeuristicFamily, is_blocker, family_value}

abbrev pub FamilyHistogram : Type 0
FamilyHistogram = List (String × ℕ)

-- `counts.get(key, 0)`
abbrev pub count_of : Dict String ℕ → String → ℕ
count_of m k = elim (dict_get m k) [ none ↦ 0 | some n ↦ n ]

abbrev count_family : Dict String ℕ → Bool → Option HeuristicFamily → Dict String ℕ
count_family m false family = m
count_family m true none = m
count_family m true (some h) = dict_set m (family_value h) (count_of m (family_value h) + 1)

abbrev pub family_counts : Dict String ℕ → List Finding → Dict String ℕ
family_counts m [] = m
family_counts m (f ∷ fs) =
    family_counts (count_family m (is_blocker f.severity) f.heuristic_family) fs

unfoldable pub compute_family_histogram : List Finding → FamilyHistogram
unfolding sorted
compute_family_histogram findings = sorted (family_counts [] findings)

-- `sum(count for _, count in h)`
abbrev pub mass : FamilyHistogram → ℕ
mass [] = 0
mass ((family, n) ∷ h) = n + mass h

-- `h[-1 - i]`
abbrev pub from_end {ℓ} : {A : Type ℓ} → List A → ℕ → Result A
from_end l i = elim (get_elem? (reverse l) i) [ none ↦ err index_error | some a ↦ ok a ]

-- `any(latest == h[-1 - p] for p in range(2, 2 + n))`, `p` running from its first value
unfoldable pub repeats : List FamilyHistogram → FamilyHistogram → ℕ → ℕ → Result Bool
repeats h latest p zero = ok false
repeats h latest p (suc n) =
    let rest = repeats h latest (suc p) n in
    do old ← from_end h p; if latest == old then ok true else rest

unfoldable pub detect_histogram_cycling : List FamilyHistogram → ℕ → Result Bool
unfolding repeats
detect_histogram_cycling histograms max_lag =
    if ltb (length histograms) (max_lag + 1) then ok false else (do
      latest ← from_end histograms 0
      previous ← from_end histograms 1
      if latest == previous
          then ok false
          else if ltb (mass latest) (mass previous)
          then ok false
          else repeats histograms latest 2 (max_lag - 1))
