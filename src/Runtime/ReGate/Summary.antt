-- ===== src/Runtime/ReGate/Summary.antt =====
-- What the check of the preconditions of a task tells.
use planner_critic_engine.Prelude.{
  ◌+◌, String, Bool, true, false, not, none, some, List, [], ◌∷◌, ◌++◌, map, ok, err, string_eq,
  nat_eq, length, filter, any, length-filter-le, append-nil, append_assoc, is_some, is_empty,
  if◌then◌else◌, ◌≡◌, refl, sym, ap, ◌∙◌, arith, Bool-cases, inl, inr, ◌⊎◌, Option-cases, all,
  validation_error,
}
use planner_critic_engine.Schema.Plan.{EnvProbe, Precondition, Task}
use planner_critic_engine.Types.{ApprovedPlan}
use planner_critic_engine.Runtime.ReGate.{
  before_each_step, pass, stale, ReGateResult, is_pass, find_task, Tally, is_request, tally_probe,
  tally, summary, check_preconditions,
}

module _ (run_probe : EnvProbe → Bool) where
  -- The probe of a precondition does not match.
  abbrev pub fails : Precondition → Bool
  fails p = elim p.probe [ none ↦ false | some probe ↦ not (run_probe probe) ]

  abbrev pub has_probe : Precondition → Bool
  has_probe p = is_some p.probe

  -- What a tally has after some preconditions, beside what it had.
  abbrev Counted : Tally → List Precondition → Tally → Type 0
  Counted t ps z =
      (z.stale ≡ t.stale ++ map (λ p. p.description) (filter fails ps))
      × (z.checked ≡ t.checked + length (filter has_probe ps))
      × (z.probe_backed ≡ t.probe_backed + length (filter has_probe ps))

  -- A probe of a kind that can be requested.
  abbrev pub can_run : Precondition → Bool
  can_run p = elim p.probe [ none ↦ true | some probe ↦ is_request probe ]

  tally_skip :
      (t z : Tally) (p : Precondition) (ps : List Precondition)
      → p.probe ≡ none
      → Counted t ps z
      → Counted t (p ∷ ps) z
  tally_skip t z p ps bare (s, n, b) =
      let quiet : fails p ≡ false = rw bare refl in
      let without : has_probe p ≡ false = rw bare refl in rw (quiet, without) (s, n, b)

  tally_step :
      (t z : Tally) (p : Precondition) (ps : List Precondition) (probe : EnvProbe)
      → p.probe ≡ some probe
      → Counted (tally_probe run_probe t p probe) ps z
      → Counted t (p ∷ ps) z
  tally_step t z p ps probe there (s, n, b) =
      let having : has_probe p ≡ true = rw there refl in
      elim (Bool-cases (run_probe probe)) [
        | inl good ↦
            let quiet : fails p ≡ false = rw (there, good) refl in
            rw (quiet, having) (s ∙ rw good refl, n ∙ omega arith, b ∙ omega arith)
        | inr bad ↦
            let loud : fails p ≡ true = rw (there, bad) refl in
            rw (loud, having)
              (
                s
                    ∙ rw bad (
                        append_assoc t.stale (p.description ∷ [])
                          (map (λ q. q.description) (filter fails ps))),
                n ∙ omega arith,
                b ∙ omega arith,
              )
      ]

  -- The loop counts all preconditions, or raises at the first probe that cannot be requested.
  abbrev Tallied : Tally → List Precondition → Type 0
  Tallied t ps =
      (all can_run ps ≡ true) × ((z : Tally) × (tally run_probe t ps ≡ ok z) × Counted t ps z)
      ⊎ (all can_run ps ≡ false) × (tally run_probe t ps ≡ err validation_error)

  tally_all : (t : Tally) (ps : List Precondition) → Tallied t ps
  unfolding tally
  tally_all t [] = inl (refl, (t, refl, (sym (append-nil t.stale), omega arith, omega arith)))
  tally_all t (p ∷ ps) = elim (Option-cases p.probe) [
    | inl bare ↦ elim (tally_all t ps) [
      | inl (runs, (z, run, counted)) ↦
          inl (rw bare runs, (z, rw bare run, tally_skip t z p ps bare counted))
      | inr (stuck, run) ↦ inr (rw bare stuck, rw bare run)
    ]
    | inr (probe, there) ↦ elim (Bool-cases (is_request probe)) [
      | inr refused ↦ inr (rw (there, refused) refl, rw (there, refused) refl)
      | inl valid ↦ elim (tally_all (tally_probe run_probe t p probe) ps) [
        | inl (runs, (z, run, counted)) ↦ inl (
          rw (there, valid) runs,
          (z, rw (there, valid) run, tally_step t z p ps probe there counted),
        )
        | inr (stuck, run) ↦ inr (rw (there, valid) stuck, rw (there, valid) run)
      ]
    ]
  ]

  all_passed :
      (ps : List Precondition)
      → is_pass (if is_empty (map (λ p. p.description) (filter fails ps)) then pass else stale)
        ≡ not (any fails ps)
  all_passed [] = refl
  all_passed (p ∷ ps) = elim (Bool-cases (fails p)) [
    | inl loud ↦ rw loud refl
    | inr quiet ↦ rw quiet (all_passed ps)
  ]

  -- What a check tells of the preconditions of a task.
  abbrev pub Tells : List Precondition → ReGateResult → Type 0
  Tells ps r =
      (r.stale_preconditions ≡ map (λ p. p.description) (filter fails ps))
      × (is_pass r.status ≡ not (any fails ps))
      × (r.total ≡ length ps)
      × (r.checked ≡ length (filter has_probe ps))
      × (r.checked ≡ r.probe_backed)
      × (r.probe_backed + r.unprobe_backed ≡ r.total)

  summary-Tells :
      (ps : List Precondition) (z : Tally)
      → Counted (record { stale = []; checked = 0; probe_backed = 0 }) ps z
      → Tells ps (summary run_probe (length ps) z)
  summary-Tells ps z (s, n, b) = (
    s,
    ap (λ l. is_pass (if is_empty l then pass else stale)) s ∙ all_passed ps,
    refl,
    omega (arith, n),
    omega (arith, n, b),
    omega (arith, b, length-filter-le has_probe ps),
  )

  pub check_preconditions-summary :
      (approved : ApprovedPlan) (task_id : String) (task : Task)
      → find_task approved task_id ≡ ok task
      → (all can_run task.preconditions ≡ true)
          × ((r : ReGateResult) × (check_preconditions run_probe approved task_id before_each_step
                ≡ ok r)
              × Tells task.preconditions r)
        ⊎ (all can_run task.preconditions ≡ false)
          × (check_preconditions run_probe approved task_id before_each_step ≡ err validation_error)
  unfolding check_preconditions
  check_preconditions-summary approved task_id task found =
      let ps = task.preconditions in
      elim (tally_all (record { stale = []; checked = 0; probe_backed = 0 }) ps) [
        | inl (runs, (z, run, counted)) ↦ inl (
          runs,
          (summary run_probe (length ps) z, rw (found, run) refl, summary-Tells ps z counted),
        )
        | inr (stuck, run) ↦ inr (stuck, rw (found, run) refl)
      ]
