-- ===== src/Store/History.antt =====
-- The store against the history of the calls that wrote to it: readers by key, and the latest revision.
use planner_critic_engine.Prelude.{
  ℕ, ◌≤◌, String, true, false, Option, none, some, List, [], ◌∷◌, ◌≡◌, refl, sym, ap, ◌∙◌, arith,
  ◌&&◌, ◌==◌, string_eq, nat_eq, pair_eq, Dict, dict_set, dict_get, dict_get-dict_set, is_some,
  contains, ltb, if◌then◌else◌, Bool-cases, inl, inr,
}
use planner_critic_engine.Schema.Plan.{PlanVersion}
use planner_critic_engine.Store.{
  Revision, InMemoryStore, empty_store, get_plan, latest, versions_of,
}
use planner_critic_engine.Store.Replay.{
  Op, put_plan_version, put_findings, put_escalation, put_execution_trace, link, put_replan_link,
  put_missed_critique, put_plan_signature, put_acceptance_contract, call, run, view, replay, blank,
  run-empty_store,
}
use planner_critic_engine.Store.Latest.{get_plan-newest, contains-versions_of}

abbrev larger : ℕ → Option ℕ → ℕ
larger v none = v
larger v (some w) = if ltb v w then w else v

-- The greatest version that was written for a plan.
abbrev pub written : Op → String → Option ℕ → Option ℕ
written (put_plan_version p) i n = if p.id == i then some (larger p.version n) else n
written (put_findings j v l) i n = n
written (put_escalation e) i n = n
written (put_execution_trace t) i n = n
written (link j v t) i n = n
written (put_replan_link l) i n = n
written (put_missed_critique j b) i n = n
written (put_plan_signature j v x) i n = n
written (put_acceptance_contract c) i n = n

abbrev pub newest : List Op → String → Option ℕ → Option ℕ
newest [] i n = n
newest (o ∷ ops) i n = newest ops i (written o i n)

-- The plan of the greatest version, as it was written last.
abbrev pub newest_plan : List Op → String → Option PlanVersion
newest_plan ops i = elim (newest ops i none) [
  | none ↦ none
  | some v ↦ (replay ops blank).plan_at (i, v)
]

abbrev Plans : Type 0
Plans = Dict Revision PlanVersion

abbrev IsStored : Plans → String → ℕ → Type 0
IsStored m i v = is_some (dict_get m (i, v)) ≡ true

-- A version is the greatest that is stored of a plan, or there is none.
abbrev IsNewest : Plans → String → Option ℕ → Type 0
IsNewest m i none = (v : ℕ) → is_some (dict_get m (i, v)) ≡ false
IsNewest m i (some w) = IsStored m i w × ((v : ℕ) → IsStored m i v → v ≤ w)

stored_after :
    (m : Plans) (p : PlanVersion) (i : String) (v : ℕ)
    → is_some (dict_get (dict_set m (p.id, p.version) p) (i, v))
      ≡ (if p.id == i && p.version == v then true else is_some (dict_get m (i, v)))
stored_after m p i v = ground (arith, dict_get-dict_set m (p.id, p.version) (i, v) p)

put-IsNewest :
    (m : Plans) (p : PlanVersion) (i : String) (n : Option ℕ)
    → IsNewest m i n
    → IsNewest (dict_set m (p.id, p.version) p) i (written (put_plan_version p) i n)
put-IsNewest m p i none h = elim (Bool-cases (p.id == i)) [
  | inr other ↦ rw other (λ v. stored_after m p i v ∙ ground (arith, other, h v))
  | inl same ↦ rw same (
    stored_after m p i p.version ∙ ground (arith, same, nat_eq.beq_iff p.version p.version),
    λ v stored.
        ground (arith, sym (stored_after m p i v) ∙ stored, h v, nat_eq.beq_iff p.version v),
  )
]
put-IsNewest m p i (some w) (there, most) = elim (Bool-cases (p.id == i)) [
  | inr other ↦ rw other (
    stored_after m p i w ∙ ground (arith, other, there),
    λ v stored. most v (ground (arith, sym (stored_after m p i v) ∙ stored, other)),
  )
  | inl same ↦ rw same (
    stored_after m p i (larger p.version (some w))
        ∙ ground
            (arith, same, there, nat_eq.beq_iff p.version p.version, nat_eq.beq_iff p.version w),
    λ v stored.
        ground (arith, sym (stored_after m p i v) ∙ stored, most v, nat_eq.beq_iff p.version v),
  )
]

call-IsNewest :
    (o : Op) (s : InMemoryStore) (i : String) (n : Option ℕ)
    → IsNewest s.plans i n
    → IsNewest (call o s).plans i (written o i n)
call-IsNewest (put_plan_version p) s i n h = put-IsNewest s.plans p i n h
call-IsNewest (put_findings j v l) s i n h = h
call-IsNewest (put_escalation e) s i n h = h
call-IsNewest (put_execution_trace t) s i n h = h
call-IsNewest (link j v t) s i n h = h
call-IsNewest (put_replan_link l) s i n h = h
call-IsNewest (put_missed_critique j b) s i n h = h
call-IsNewest (put_plan_signature j v x) s i n h = h
call-IsNewest (put_acceptance_contract c) s i n h = h

run-IsNewest :
    (ops : List Op) (s : InMemoryStore) (i : String) (n : Option ℕ)
    → IsNewest s.plans i n
    → IsNewest (run ops s).plans i (newest ops i n)
unfolding run
run-IsNewest [] s i n h = h
run-IsNewest (o ∷ ops) s i n h =
    run-IsNewest ops (call o s) i (written o i n) (call-IsNewest o s i n h)

-- Without a stored version there is no latest one.
latest-none :
    (s : InMemoryStore) (i : String) (vs : List ℕ)
    → ((v : ℕ) → contains vs v ≡ false)
    → latest s i vs ≡ none
latest-none s i [] h = refl
latest-none s i (v ∷ vs) h =
    let listed : contains (v ∷ vs) v ≡ true = ground (arith, nat_eq.beq_iff v v) in
    let absent = h v in cc

latest-some :
    (s : InMemoryStore) (i : String) (w : ℕ)
    → IsNewest s.plans i (some w)
    → get_plan s i none ≡ dict_get s.plans (i, w)
unfolding get_plan
latest-some s i w (there, most) =
    let (x, above, stored, same) = get_plan-newest s i w there in
    let equal : x ≡ w = omega (arith, above, most x stored) in
    same ∙ ap (λ v. dict_get s.plans (i, v)) equal

latest-newest :
    (s : InMemoryStore) (i : String) (n : Option ℕ)
    → IsNewest s.plans i n
    → get_plan s i none ≡ elim n [ none ↦ none | some v ↦ dict_get s.plans (i, v) ]
unfolding get_plan
latest-newest s i none h =
    latest-none s i (versions_of s.plans i) (λ v. contains-versions_of s.plans i v ∙ h v)
latest-newest s i (some w) h = latest-some s i w h

replayed :
    (ops : List Op) (i : String) (n : Option ℕ)
    → elim n [ none ↦ none | some v ↦ dict_get (run ops empty_store).plans (i, v) ]
      ≡ elim n [ none ↦ none | some v ↦ (replay ops blank).plan_at (i, v) ]
unfolding get_plan
replayed ops i none = refl
replayed ops i (some v) = ap (λ m. m.plan_at (i, v)) (run-empty_store ops)

pub run-history :
    (ops : List Op)
    → (view (run ops empty_store) ≡ replay ops blank)
      × ((i : String) → get_plan (run ops empty_store) i none ≡ newest_plan ops i)
run-history ops = (
  run-empty_store ops,
  λ i.
      latest-newest (run ops empty_store) i (newest ops i none)
        (run-IsNewest ops empty_store i none (λ v. refl))
      ∙ replayed ops i (newest ops i none),
)
