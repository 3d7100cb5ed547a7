-- ===== src/Runtime/Drift.antt =====
-- drift.py: the drift of a severity between the critic and the code. The drift fields of a finding are in
-- a record beside it. The rate of downgrades is the quotient of two counts of the summary, and the alert
-- is statistics in floating point; both are left out.
use planner_critic_engine.Prelude.{
  ℕ, ◌+◌, ◌-◌, ◌≤◌, String, Bool, true, false, not, ◌&&◌, Option, none, some, List, [], ◌∷◌, map,
  Dict, dict_get, dict_set, string_eq, nat_eq, filter, length, contains, ltb, is_some,
  if◌then◌else◌, ◌≡◌, refl, arith, Bool-cases, inl, inr,
}
use planner_critic_engine.Types.{
  Finding, Severity, blocker, warning, info, is_blocker, HeuristicFamily, family_value,
  is_llm_finding,
}

-- An integer: `pos n` is n, `negsuc n` is -(n + 1).
pub data ℤ : Type 0 where
  pos : ℕ → ℤ
  negsuc : ℕ → ℤ

-- `m - n`
abbrev pub difference : ℕ → ℕ → ℤ
difference m n = if ltb m n then negsuc (n - m - 1) else pos (m - n)

abbrev pub is_negative : ℤ → Bool
is_negative (pos n) = false
is_negative (negsuc n) = true

pub record DriftFinding : Type 0 where
  pub finding : Finding
  pub raw_severity : Option Severity
  pub normalized_severity : Option Severity
  pub drift_delta : ℤ

-- `SEVERITY_MAP`
abbrev pub severity_map : Severity → ℕ
severity_map blocker = 2
severity_map warning = 1
severity_map info = 0

-- `a or b`, where `a` may be absent
abbrev pub or_else : Option Severity → Severity → Severity
or_else none s = s
or_else (some r) s = r

unfoldable pub compute_drift : DriftFinding → DriftFinding
compute_drift f =
    let raw = or_else f.raw_severity f.finding.severity in
    let norm = or_else f.normalized_severity f.finding.severity in
    if not (is_llm_finding f.finding) then f else record f {
      raw_severity = some raw;
      normalized_severity = some norm;
      drift_delta = difference (severity_map norm) (severity_map raw);
    }

abbrev pub has_drifted : DriftFinding → Bool
has_drifted f = is_negative f.drift_delta

abbrev pub family_of : Option HeuristicFamily → String
family_of none = "unknown"
family_of (some h) = family_value h

-- The counts of a family: drifted, and all.
abbrev pub Counts : Type 0
Counts = ℕ × ℕ

abbrev pub counts_of : Dict String Counts → String → Counts
counts_of m k = elim (dict_get m k) [ none ↦ (0, 0) | some c ↦ c ]

abbrev pub add_drifted : Dict String Counts → List DriftFinding → Dict String Counts
add_drifted m [] = m
add_drifted m (f ∷ fs) =
    let k = family_of f.finding.heuristic_family in
    add_drifted (dict_set m k ((counts_of m k).0 + 1, (counts_of m k).1)) fs

abbrev pub add_total : Dict String Counts → List DriftFinding → Dict String Counts
add_total m [] = m
add_total m (f ∷ fs) =
    let k = family_of f.finding.heuristic_family in
    add_total (dict_set m k ((counts_of m k).0, (counts_of m k).1 + 1)) fs

abbrev pub blocker_claimed : Option Severity → Bool
blocker_claimed none = false
blocker_claimed (some s) = is_blocker s

abbrev pub lowered_to : Option Severity → Bool
lowered_to none = false
lowered_to (some s) = ltb (severity_map s) 2

abbrev pub is_critical : Option HeuristicFamily → Bool
is_critical none = false
is_critical (some h) = contains ("risk" ∷ "missing_steps" ∷ []) (family_value h)

abbrev pub is_underclaim : DriftFinding → Bool
is_underclaim f =
    blocker_claimed f.raw_severity
    && lowered_to f.normalized_severity
    && is_critical f.finding.heuristic_family

pub record DriftSummary : Type 0 where
  pub total_findings : ℕ
  pub drifted_count : ℕ
  pub per_family : Dict String Counts
  pub critical_underclaims : ℕ
  pub underclaim_findings : List String

unfoldable pub compute_drift_summary : List DriftFinding → DriftSummary
compute_drift_summary findings =
    let drifted = filter has_drifted findings in
    let underclaims = filter is_underclaim findings in
    record {
      total_findings = length findings;
      drifted_count = length drifted;
      per_family = add_total (add_drifted [] drifted) findings;
      critical_underclaims = length underclaims;
      underclaim_findings = map (λ f. f.finding.id) underclaims;
    }

delta_below :
    (raw norm : Option Severity)
    → (s : Severity)
    → (blocker_claimed (some (or_else raw s)) && lowered_to (some (or_else norm s))) ≡ true
    → is_negative (difference (severity_map (or_else norm s)) (severity_map (or_else raw s))) ≡ true
delta_below raw norm s h = claimed (or_else raw s) (or_else norm s) h
  where
    claimed :
        (r n : Severity)
        → (is_blocker r && ltb (severity_map n) 2) ≡ true
        → is_negative (difference (severity_map n) (severity_map r)) ≡ true
    claimed blocker blocker h = cc
    claimed blocker warning h = refl
    claimed blocker info h = refl
    claimed warning n h = cc
    claimed info n h = cc

critical_llm : (f : Finding) → is_critical f.heuristic_family ≡ true → is_llm_finding f ≡ true
critical_llm f h = family_some f.heuristic_family h
  where
    family_some : (o : Option HeuristicFamily) → is_critical o ≡ true → is_some o ≡ true
    family_some none h = cc
    family_some (some x) h = refl

underclaim-drifted :
    (f : DriftFinding)
    → is_underclaim (compute_drift f) ≡ true
    → has_drifted (compute_drift f) ≡ true
unfolding compute_drift
underclaim-drifted f h = elim (Bool-cases (is_llm_finding f.finding)) [
  | inl llm ↦
      let claims = rw (compute_drift, llm) at h in
      rw (compute_drift, llm)
        (delta_below f.raw_severity f.normalized_severity f.finding.severity
          (ground (arith, claims)))
  | inr gate ↦
      let claims = rw (compute_drift, gate) at h in
      absurd (ground (arith, gate, critical_llm f.finding (ground (arith, claims))))
]

-- Over findings with their drift computed, the critical underclaims are at most the drifted ones.
pub compute_drift_summary-underclaims :
    (l : List DriftFinding)
    → (compute_drift_summary (map compute_drift l)).critical_underclaims
      ≤ (compute_drift_summary (map compute_drift l)).drifted_count
unfolding compute_drift_summary
compute_drift_summary-underclaims [] = omega arith
compute_drift_summary-underclaims (f ∷ l) =
    ground (arith, underclaim-drifted f, compute_drift_summary-underclaims l)
