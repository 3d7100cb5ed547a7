-- ===== src/Escalations/Patches.antt =====
-- A patch of a reviewer: no blocker of a gate gets past it.
use planner_critic_engine.Prelude.{
  ◌+◌, ==→≡, String, true, false, none, some, List, [], ◌∷◌, ◌++◌, map, string_eq, nat_eq,
  option_eq, Result, ok, err, Error, value_error, any, any-append, filter, is_empty, is_none, Dict,
  dict_get, dict_set, contains, contains-append, nodup, >>=-eq-ok, append-nil, append_assoc,
  map-append, ◌≡◌, refl, sym, ap, ◌∙◌, arith, inl, inr, Bool-cases, Option-cases, ||-eq-false,
}
use planner_critic_engine.Schema.Plan.{PlanVersion}
use planner_critic_engine.Types.{Finding}
use planner_critic_engine.Gates.{run_deterministic_gates}
use planner_critic_engine.Gates.Clean.{found_eq}
use planner_critic_engine.Loop.Regression.{is_gate_blocker}
use planner_critic_engine.Store.Protocol.{PlanStore}
use planner_critic_engine.Escalations.{
  Audit, by_id, add_missing, merge_findings, refuse_blockers, recritique, is_next, store_patch,
  patch_and_recritique,
}

abbrev ids : Dict String Finding → List String
ids m = map (λ e. e.0) m

abbrev named : List Finding → Dict String Finding
named l = map (λ f. (f.id, f)) l

dict_set-absent :
    (m : Dict String Finding) (k : String) (f : Finding)
    → contains (ids m) k ≡ false
    → dict_set m k f ≡ m ++ (k, f) ∷ []
dict_set-absent [] k f h = refl
dict_set-absent ((j, g) ∷ m) k f h = ground (arith, dict_set-absent m k f)

nodup-middle :
    (xs ys : List String) (y : String) → nodup (xs ++ y ∷ ys) ≡ true → contains xs y ≡ false
nodup-middle [] ys y h = refl
nodup-middle (x ∷ xs) ys y h = ground (
  arith,
  nodup-middle xs ys y,
  contains-append xs (y ∷ ys) x,
  string_eq.beq_iff x y,
  string_eq.beq_iff y x,
)

by_id-distinct :
    (m : Dict String Finding) (l : List Finding)
    → nodup (ids m ++ map (λ f. f.id) l) ≡ true
    → by_id m l ≡ m ++ named l
by_id-distinct m [] once = sym (append-nil m)
by_id-distinct m (f ∷ l) once =
    let new = dict_set-absent m f.id f (nodup-middle (ids m) (map (λ g. g.id) l) f.id once) in
    let shifted : ids (m ++ (f.id, f) ∷ []) ++ map (λ g. g.id) l
        ≡ ids m ++ f.id ∷ map (λ g. g.id) l =
      ap (λ z. z ++ map (λ g. g.id) l) (map-append (λ e. e.0) m ((f.id, f) ∷ []))
      ∙ append_assoc (ids m) (f.id ∷ []) (map (λ g. g.id) l) in
    ap (λ z. by_id z l) new
    ∙ by_id-distinct (m ++ (f.id, f) ∷ []) l (ap nodup shifted ∙ once)
    ∙ append_assoc m ((f.id, f) ∷ []) (named l)

map-named : (l : List Finding) → map (λ e. e.1) (named l) ≡ l
map-named [] = refl
map-named (f ∷ l) = ap (λ z. f ∷ z) (map-named l)

-- The critic's findings only come after those of the gates.
add_missing-extends :
    (m : Dict String Finding) (l : List Finding)
    → (extra : Dict String Finding) × (add_missing m l ≡ m ++ extra)
add_missing-extends m [] = ([], sym (append-nil m))
add_missing-extends m (f ∷ l) = elim (Bool-cases (is_none (dict_get m f.id))) [
  | inr present ↦ let (extra, same) = add_missing-extends m l in (extra, rw present same)
  | inl absent ↦
      let (extra, same) = add_missing-extends (m ++ (f.id, f) ∷ []) l in
      ((f.id, f) ∷ extra, rw absent (same ∙ append_assoc m ((f.id, f) ∷ []) extra))
]

merge-extends :
    (found critic : List Finding)
    → nodup (map (λ f. f.id) found) ≡ true
    → (extra : List Finding) × (merge_findings found critic ≡ found ++ extra)
merge-extends found critic once =
    let (extra, same) = add_missing-extends (by_id [] found) critic in
    (
      map (λ e. e.1) extra,
      ap (map (λ e. e.1)) same
          ∙ map-append (λ e. e.1) (by_id [] found) extra
          ∙ ap (λ z. map (λ e. e.1) z ++ map (λ e. e.1) extra) (by_id-distinct [] found once)
          ∙ ap (λ z. z ++ map (λ e. e.1) extra) (map-named found),
    )

none_kept :
    (l : List Finding) → is_empty (filter is_gate_blocker l) ≡ true → any is_gate_blocker l ≡ false
none_kept [] h = refl
none_kept (f ∷ l) h = ground (arith, none_kept l)

refuse-clean :
    (l out : List Finding)
    → refuse_blockers l ≡ ok out
    → (any is_gate_blocker l ≡ false) × (l ≡ out)
refuse-clean l out h = elim (Bool-cases (is_empty (filter is_gate_blocker l))) [
  | inl quiet ↦ (none_kept l quiet, found_eq l out (rw quiet at h))
  | inr blocked ↦ let refused : err value_error ≡ ok out = rw blocked at h in cc
]

recritique-clean :
    (audit : Audit) (patch : PlanVersion) (out : List Finding)
    → recritique audit patch ≡ ok out
    → any is_gate_blocker out ≡ false
unfolding recritique
recritique-clean audit patch out run =
    let (found, _, audited) = >>=-eq-ok (run_deterministic_gates [] patch) _ run in
    let (critic, _, merged) = >>=-eq-ok (audit patch found) _ audited in
    let (clean, same) = refuse-clean (merge_findings found critic) out merged in
    ap (any is_gate_blocker) (sym same) ∙ clean

recritique-silent :
    (audit : Audit) (patch : PlanVersion) (found out : List Finding)
    → run_deterministic_gates [] patch ≡ ok found
    → nodup (map (λ f. f.id) found) ≡ true
    → recritique audit patch ≡ ok out
    → any is_gate_blocker found ≡ false
unfolding recritique
recritique-silent audit patch found out gates once run =
    let (critic, _, merged) = >>=-eq-ok (audit patch found) _ (rw (recritique, gates) at run) in
    let (clean, same) = refuse-clean (merge_findings found critic) out merged in
    let (extra, split) = merge-extends found critic once in
    let parts = any-append is_gate_blocker found extra in
    let whole : any is_gate_blocker (found ++ extra) ≡ false =
      ap (any is_gate_blocker) (sym split) ∙ clean in
    (||-eq-false _ _ (sym parts ∙ whole)).0

next-version :
    (current patch : PlanVersion)
    → is_next current patch ≡ true
    → patch.version ≡ current.version + 1
next-version current patch h = ground (arith, h, nat_eq.beq_iff patch.version (current.version + 1))

next-parent :
    (current patch : PlanVersion)
    → is_next current patch ≡ true
    → patch.parent_version ≡ some current.id
next-parent current patch h = ==→≡ _ _ (ground (arith, h))

module _ {S : Type 0} ⦃store : PlanStore S⦄ where
  refused :
      (unused : PlanVersion) (s s' : S) (x : Error) (out : List Finding) {A : Type 0}
      → store_patch s "" unused (err x) ≡ (s', ok out)
      → A
  refused unused s s' x out h = let raised : err x ≡ ok out = ap (λ t. t.1) h in cc

  stored_after :
      (s s' : S) (i : String) (patch : PlanVersion) (r : Result (List Finding)) (out : List Finding)
      → store_patch s i patch r ≡ (s', ok out)
      → (r ≡ ok out)
        × (store.put_findings (store.put_plan_version s patch) i patch.version out ≡ s')
  stored_after s s' i patch (err x) out h = refused patch s s' x out h
  stored_after s s' i patch (ok l) out h =
      let same : ok l ≡ ok out = ap (λ t. t.1) h in
      (
        same,
        ap (λ z. store.put_findings (store.put_plan_version s patch) i patch.version z)
              (sym (found_eq l out same))
            ∙ ap (λ t. t.0) h,
      )

  patch-read :
      (s : S) (i : String) (patch : PlanVersion) (out : List Finding)
      → store.get_plan
          (store.put_findings (store.put_plan_version s patch) i patch.version out)
          patch.id
          (some patch.version)
        ≡ some patch
  patch-read s i patch out =
      store.findings_keep_plans (store.put_plan_version s patch) i patch.version out patch.id
        (some patch.version)
      ∙ store.read_plan s patch patch.id patch.version
      ∙ ground (arith, string_eq.beq_iff patch.id patch.id)

  -- What an accepted patch has passed, and the store that it leaves.
  accepted :
      (s s' : S) (plan_id : String) (patch : PlanVersion) (audit : Audit) (out : List Finding)
      → patch_and_recritique s plan_id patch audit ≡ (s', ok out)
      → (recritique audit patch ≡ ok out)
        × (store.put_findings (store.put_plan_version s patch) plan_id patch.version out ≡ s')
        × (current : PlanVersion) × (store.get_plan s plan_id none ≡ some current)
        × (is_next current patch ≡ true)
  unfolding patch_and_recritique
  accepted s s' plan_id patch audit out done = elim (Option-cases (store.get_plan s plan_id none)) [
    | inl unknown ↦ refused patch s s' value_error out (rw (patch_and_recritique, unknown) at done)
    | inr (current, known) ↦ elim (Bool-cases (is_next current patch)) [
      | inr other ↦
          refused patch s s' value_error out (rw (patch_and_recritique, known, other) at done)
      | inl next ↦
          let (run, left) =
            stored_after s s' plan_id patch (recritique audit patch) out
              (rw (patch_and_recritique, known, next) at done) in
          (run, left, current, known, next)
    ]
  ]

  pub patch_and_recritique-clean :
      (s s' : S) (plan_id : String) (patch : PlanVersion) (audit : Audit) (out : List Finding)
      → patch_and_recritique s plan_id patch audit ≡ (s', ok out)
      → (any is_gate_blocker out ≡ false)
        × (store.get_plan s' patch.id (some patch.version) ≡ some patch)
        × (current : PlanVersion) × (store.get_plan s plan_id none ≡ some current)
        × (patch.version ≡ current.version + 1)
        × (patch.parent_version ≡ some current.id)
  patch_and_recritique-clean s s' plan_id patch audit out done =
      let (run, left, current, known, next) = accepted s s' plan_id patch audit out done in
      (
        recritique-clean audit patch out run,
        ap (λ t. store.get_plan t patch.id (some patch.version)) (sym left)
            ∙ patch-read s plan_id patch out,
        current,
        known,
        next-version current patch next,
        next-parent current patch next,
      )

  -- Where the gates run on a patch and their findings carry distinct ids, and the patch is accepted, the
  -- gates report no blocker on it, whatever the critic answers.
  pub patch_and_recritique-silent :
      (s s' : S) (plan_id : String) (patch : PlanVersion) (audit : Audit) (found out : List Finding)
      → run_deterministic_gates [] patch ≡ ok found
      → nodup (map (λ f. f.id) found) ≡ true
      → patch_and_recritique s plan_id patch audit ≡ (s', ok out)
      → any is_gate_blocker found ≡ false
  patch_and_recritique-silent s s' plan_id patch audit found out gates once done =
      recritique-silent audit patch found out gates once
        (accepted s s' plan_id patch audit out done).0
