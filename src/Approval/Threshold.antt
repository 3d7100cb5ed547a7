-- ===== src/Approval/Threshold.antt =====
-- What the threshold of approval.py lets pass, against an independent description of the findings.
use planner_critic_engine.Prelude.{
  Bool, true, false, ◌&&◌, ◌||◌, not, List, [], ◌∷◌, ◌++◌, ◌≡◌, refl, ◌∙◌, ap, arith, filter, any,
  all, is_empty, append_assoc, append-nil, any-append,
}
use planner_critic_engine.Schema.Goal.{RiskTolerance, strict, balanced, permissive, is_strict}
use planner_critic_engine.Types.{
  Finding, Severity, blocker, warning, info, is_blocker, is_warning, is_llm_finding,
}
use planner_critic_engine.Approval.{
  ThresholdOutcome, sort_finding, split_findings, resolve_threshold, meets_threshold, no_findings,
}

-- A blocker of a gate always disqualifies, one of the critic under the strict posture only.
abbrev pub disqualifies : RiskTolerance → Finding → Bool
disqualifies r f = is_blocker f.severity && (not (is_llm_finding f) || is_strict r)

abbrev pub pends : RiskTolerance → Finding → Bool
pends r f = is_warning f.severity && is_strict r

abbrev pub is_acknowledged : RiskTolerance → Finding → Bool
is_acknowledged r f =
    not (is_strict r) && (is_warning f.severity || (is_blocker f.severity && is_llm_finding f))

abbrev pub keep_if : Bool → Finding → List Finding
keep_if true f = f ∷ []
keep_if false f = []

-- One finding lands in exactly the list that the description names.
sort_finding_lists :
    (o : ThresholdOutcome) (f : Finding) (sev : Severity) (r : RiskTolerance)
    → f.severity ≡ sev
    → ((sort_finding o f sev r).blockers ≡ o.blockers ++ keep_if (disqualifies r f) f)
      × ((sort_finding o f sev r).pending_warnings ≡ o.pending_warnings ++ keep_if (pends r f) f)
      × ((sort_finding o f sev r).acknowledged ≡ o.acknowledged ++ keep_if (is_acknowledged r f) f)
unfolding sort_finding
sort_finding_lists o f blocker strict h =
    ground (arith, append-nil o.blockers, append-nil o.pending_warnings, append-nil o.acknowledged)
sort_finding_lists o f blocker balanced h =
    ground (arith, append-nil o.blockers, append-nil o.pending_warnings, append-nil o.acknowledged)
sort_finding_lists o f blocker permissive h =
    ground (arith, append-nil o.blockers, append-nil o.pending_warnings, append-nil o.acknowledged)
sort_finding_lists o f warning strict h =
    ground (arith, append-nil o.blockers, append-nil o.pending_warnings, append-nil o.acknowledged)
sort_finding_lists o f warning balanced h =
    ground (arith, append-nil o.blockers, append-nil o.pending_warnings, append-nil o.acknowledged)
sort_finding_lists o f warning permissive h =
    ground (arith, append-nil o.blockers, append-nil o.pending_warnings, append-nil o.acknowledged)
sort_finding_lists o f info r h =
    ground (arith, append-nil o.blockers, append-nil o.pending_warnings, append-nil o.acknowledged)

keep_if-append :
    (p : Finding → Bool) (f : Finding) (fs : List Finding)
    → keep_if (p f) f ++ filter p fs ≡ filter p (f ∷ fs)
keep_if-append p f fs = ground arith

split_findings_lists :
    (r : RiskTolerance) (o : ThresholdOutcome) (fs : List Finding)
    → ((split_findings r o fs).blockers ≡ o.blockers ++ filter (disqualifies r) fs)
      × ((split_findings r o fs).pending_warnings ≡ o.pending_warnings ++ filter (pends r) fs)
      × ((split_findings r o fs).acknowledged ≡ o.acknowledged ++ filter (is_acknowledged r) fs)
unfolding split_findings
split_findings_lists r o [] =
    ground (arith, append-nil o.blockers, append-nil o.pending_warnings, append-nil o.acknowledged)
split_findings_lists r o (f ∷ fs) =
    let o' = sort_finding o f f.severity r in
    let ih = split_findings_lists r o' fs in
    let step = sort_finding_lists o f f.severity r refl in
    let blk = keep_if-append (disqualifies r) f fs in
    let pnd = keep_if-append (pends r) f fs in
    let ack = keep_if-append (is_acknowledged r) f fs in
    (
      ih.0
          ∙ ap (λ l. l ++ filter (disqualifies r) fs) step.0
          ∙ append_assoc o.blockers (keep_if (disqualifies r f) f) (filter (disqualifies r) fs)
          ∙ ap (λ l. o.blockers ++ l) blk,
      ih.1
          ∙ ap (λ l. l ++ filter (pends r) fs) step.1
          ∙ append_assoc o.pending_warnings (keep_if (pends r f) f) (filter (pends r) fs)
          ∙ ap (λ l. o.pending_warnings ++ l) pnd,
      ih.2
          ∙ ap (λ l. l ++ filter (is_acknowledged r) fs) step.2
          ∙ append_assoc o.acknowledged (keep_if (is_acknowledged r f) f)
              (filter (is_acknowledged r) fs)
          ∙ ap (λ l. o.acknowledged ++ l) ack,
    )

-- For every posture the three lists of the outcome are, in order, exactly the findings that
-- disqualify, that wait for an acknowledgement, and that are acknowledged.
pub resolve_threshold_lists :
    (fs : List Finding) (r : RiskTolerance)
    → ((resolve_threshold fs r).1.blockers ≡ filter (disqualifies r) fs)
      × ((resolve_threshold fs r).1.pending_warnings ≡ filter (pends r) fs)
      × ((resolve_threshold fs r).1.acknowledged ≡ filter (is_acknowledged r) fs)
unfolding resolve_threshold
resolve_threshold_lists fs r = split_findings_lists r no_findings fs

is_empty-filter : (p : Finding → Bool) (fs : List Finding) → is_empty (filter p fs) ≡ not (any p fs)
is_empty-filter p [] = refl
is_empty-filter p (f ∷ fs) = ground (arith, is_empty-filter p fs)

-- The decision, as a test of the findings.
pub threshold-eq-tests :
    (fs : List Finding) (r : RiskTolerance)
    → (resolve_threshold fs r).0 ≡ (not (any (disqualifies r) fs) && not (any (pends r) fs))
unfolding resolve_threshold
threshold-eq-tests fs r =
    let lists = split_findings_lists r no_findings fs in
    rw (lists.0, lists.1, is_empty-filter (disqualifies r) fs, is_empty-filter (pends r) fs)

-- A finding that a posture tolerates.
abbrev pub tolerates : RiskTolerance → Finding → Bool
tolerates r f = not (disqualifies r f) && not (pends r f)

all-tolerates :
    (fs : List Finding) (r : RiskTolerance)
    → (not (any (disqualifies r) fs) && not (any (pends r) fs)) ≡ all (tolerates r) fs
all-tolerates [] r = refl
all-tolerates (f ∷ fs) r = ground (arith, all-tolerates fs r)

-- The threshold is met exactly when the posture tolerates every finding: no blocker of a gate under
-- any posture, and under the strict one no blocker and no warning at all.
pub meets_threshold-eq-all :
    (fs : List Finding) (r : RiskTolerance) → meets_threshold fs r ≡ all (tolerates r) fs
unfolding meets_threshold
meets_threshold-eq-all fs r = threshold-eq-tests fs r ∙ all-tolerates fs r

-- The two tests that the threshold makes, from its answer.
pub threshold_tests :
    (fs : List Finding) (r : RiskTolerance)
    → (resolve_threshold fs r).0 ≡ true
    → (any (disqualifies r) fs ≡ false) × (any (pends r) fs ≡ false)
threshold_tests fs r h = ground (arith, threshold-eq-tests fs r)

-- A finding of neither severity that matters is tolerated.
quiet_tests :
    (fs : List Finding) (r : RiskTolerance)
    → all (λ f. not (is_blocker f.severity) && not (is_warning f.severity)) fs ≡ true
    → (any (disqualifies r) fs ≡ false) × (any (pends r) fs ≡ false)
quiet_tests [] r h = (refl, refl)
quiet_tests (f ∷ fs) r h = ground (arith, quiet_tests fs r)

-- Findings without a blocker and without a warning meet the threshold of every posture.
pub quiet-threshold :
    (fs : List Finding) (r : RiskTolerance)
    → all (λ f. not (is_blocker f.severity) && not (is_warning f.severity)) fs ≡ true
    → (resolve_threshold fs r).0 ≡ true
quiet-threshold fs r h = ground (arith, threshold-eq-tests fs r, quiet_tests fs r h)

-- More findings only make the threshold harder to meet.
pub threshold-append :
    (fs gs : List Finding) (r : RiskTolerance)
    → (resolve_threshold (fs ++ gs) r).0 ≡ true
    → (resolve_threshold fs r).0 ≡ true
threshold-append fs gs r h = ground (
  arith,
  threshold-eq-tests fs r,
  threshold_tests (fs ++ gs) r h,
  any-append (disqualifies r) fs gs,
  any-append (pends r) fs gs,
)
