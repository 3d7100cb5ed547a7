-- ===== src/Escalations/Decisions.antt =====
-- Who decides an escalation, over any sequence of calls of the manager.
use planner_critic_engine.Prelude.{
  String, Bool, true, false, Option, none, some, List, [], ◌∷◌, ◌==◌, string_eq, nat_eq, option_eq,
  Result, ok, err, find, concat_map, ||-eq-false, any, strip, codes, is_empty, ◌≡◌, refl, sym, ap,
  ◌∙◌, arith, ◌⊎◌, inl, inr, Bool-cases, ==→≡, Option-cases,
}
use planner_critic_engine.Schema.Plan.{PlanVersion}
use planner_critic_engine.Types.{Finding, Escalation, EscalationStatus, is_open}
use planner_critic_engine.Store.Protocol.{PlanStore}
use planner_critic_engine.Escalations.{
  Audit, may_decide, has_open, decided, is_next, recritique, create, list_escalations, get_by_id,
  listed, resolve, store_patch, patch_and_recritique,
}

-- A call of the manager that writes.
pub data Call : Type 0 where
  create_call : Escalation → Call
  resolve_call : String → EscalationStatus → String → Option String → Call
  patch_call : String → PlanVersion → Audit → Call

-- A call with which a principal who may decide decides.
abbrev pub decides : Option String → Call → Bool
decides authority (create_call e) = false
decides authority (resolve_call i d note principal) = may_decide authority principal
decides authority (patch_call i patch audit) = false

abbrev or_text : Option Escalation → String
or_text none = ""
or_text (some e) = e.id

abbrev plan_of : Option Escalation → String
plan_of none = ""
plan_of (some e) = e.plan_id

module _ {S : Type 0} ⦃store : PlanStore S⦄ where
  -- The store that a call leaves, whether it returns or raises.
  abbrev pub after : Option String → Call → S → S
  after authority (create_call e) s = (create s e).0
  after authority (resolve_call i d note principal) s = (resolve authority s i d note principal).0
  after authority (patch_call i patch audit) s = (patch_and_recritique s i patch audit).0

  unfoldable pub manage : Option String → List Call → S → S
  manage authority [] s = s
  manage authority (c ∷ cs) s = manage authority cs (after authority c s)

  -- Every escalation is stored under its own plan.
  abbrev pub IsKeyed : S → Type 0
  IsKeyed s = (i : String) (e : Escalation) → store.get_escalation s i ≡ some e → e.plan_id ≡ i

  listed-stored :
      (s : S) (ps : List PlanVersion) (i : String) (e : Escalation)
      → find (λ x. x.id == i) (concat_map (λ p. listed none (store.get_escalation s p.id)) ps)
        ≡ some e
      → (p : PlanVersion) × (store.get_escalation s p.id ≡ some e) × (e.id ≡ i)
  listed-stored s [] i e h = cc
  listed-stored s (p ∷ ps) i e h = elim (Option-cases (store.get_escalation s p.id)) [
    | inl absent ↦ listed-stored s ps i e (rw absent at h)
    | inr (x, present) ↦ elim (Bool-cases (x.id == i)) [
      | inl same ↦
          let taken : some x ≡ some e = rw (present, same) at h in
          (p, present ∙ taken, ap (λ o. or_text o) (sym taken) ∙ ==→≡ x.id i same)
      | inr other ↦ listed-stored s ps i e (rw (present, other) at h)
    ]
  ]

  -- What `resolve` leaves: the store as it was, or an open escalation decided.
  resolve_cases :
      (authority : Option String) (s : S) (i : String) (d : EscalationStatus) (note : String)
      (principal : Option String)
      → ((resolve authority s i d note principal).0 ≡ s)
        ⊎ ((p : PlanVersion) × (x : Escalation) × (store.get_escalation s p.id ≡ some x)
            × (is_open x.status ≡ true)
            × (may_decide authority principal ≡ true)
            × ((resolve authority s i d note principal).0
                ≡ store.put_escalation s (decided x d note principal)))
  unfolding resolve get_by_id list_escalations
  resolve_cases authority s i d note principal =
      elim (Bool-cases (may_decide authority principal)) [
        | inr refused ↦ inl (rw refused refl)
        | inl allowed ↦ elim (Option-cases (get_by_id s i)) [
          | inl unknown ↦ inl (rw (allowed, unknown) refl)
          | inr (x, found) ↦
              let (p, stored, _) = listed-stored s (store.list_plans s none) i x found in
              elim (Bool-cases (is_open x.status)) [
                | inr closed ↦ inl (rw (allowed, found, closed) refl)
                | inl waits ↦ inr (p, x, stored, waits, allowed, rw (allowed, found, waits) refl)
              ]
        ]
      ]

  create_cases :
      (s : S) (e : Escalation)
      → ((create s e).0 ≡ s)
        ⊎ ((has_open (store.get_escalation s e.plan_id) ≡ false)
            × ((create s e).0 ≡ store.put_escalation s e))
  unfolding create
  create_cases s e = elim (Option-cases (store.get_plan s e.plan_id (some e.version))) [
    | inl unknown ↦ inl (rw (create, unknown) refl)
    | inr (p, known) ↦ elim (Bool-cases (is_empty (strip (codes e.question)))) [
      | inl blank ↦ inl (rw (create, known, blank) refl)
      | inr asked ↦ elim (Bool-cases (has_open (store.get_escalation s e.plan_id))) [
        | inl waits ↦ inl (rw (create, known, asked, waits) refl)
        | inr free ↦ inr (free, rw (create, known, asked, free) refl)
      ]
    ]
  ]

  stored-apart :
      (s : S) (j : String) (patch : PlanVersion) (r : Result (List Finding)) (i : String)
      → store.get_escalation (store_patch s j patch r).0 i ≡ store.get_escalation s i
  stored-apart s j patch (err x) i = refl
  stored-apart s j patch (ok l) i =
      store.findings_apart (store.put_plan_version s patch) j patch.version l i
      ∙ store.plan_apart s patch i

  patch-apart :
      (s : S) (j : String) (patch : PlanVersion) (audit : Audit) (i : String)
      → store.get_escalation (patch_and_recritique s j patch audit).0 i ≡ store.get_escalation s i
  unfolding patch_and_recritique
  patch-apart s j patch audit i = elim (Option-cases (store.get_plan s j none)) [
    | inl unknown ↦ rw (patch_and_recritique, unknown) refl
    | inr (current, known) ↦ elim (Bool-cases (is_next current patch)) [
      | inr other ↦ rw (patch_and_recritique, known, other) refl
      | inl next ↦
          rw (patch_and_recritique, known, next) (stored-apart s j patch (recritique audit patch) i)
    ]
  ]

  put-IsKeyed : (s : S) (e : Escalation) → IsKeyed s → IsKeyed (store.put_escalation s e)
  put-IsKeyed s e keyed i x stored = elim (Bool-cases (e.plan_id == i)) [
    | inl same ↦
        let mine : some e ≡ some x = rw same at (sym (store.read_escalation s e i) ∙ stored) in
        ap plan_of (sym mine) ∙ ==→≡ e.plan_id i same
    | inr other ↦ keyed i x (rw other at (sym (store.read_escalation s e i) ∙ stored))
  ]

  -- Every call keeps the escalations under their own plans.
  pub after-IsKeyed :
      (authority : Option String) (c : Call) (s : S) → IsKeyed s → IsKeyed (after authority c s)
  after-IsKeyed authority (create_call e) s keyed i x stored = elim (create_cases s e) [
    | inl same ↦ keyed i x (rw same at stored)
    | inr (_, put) ↦ put-IsKeyed s e keyed i x (rw put at stored)
  ]
  after-IsKeyed authority (resolve_call j d note principal) s keyed i x stored =
      elim (resolve_cases authority s j d note principal) [
        | inl same ↦ keyed i x (rw same at stored)
        | inr (p, y, _, _, _, put) ↦
            put-IsKeyed s (decided y d note principal) keyed i x (rw put at stored)
      ]
  after-IsKeyed authority (patch_call j patch audit) s keyed i x stored =
      keyed i x (sym (patch-apart s j patch audit i) ∙ stored)

  -- A call of one who may not decide leaves an open escalation as it is.
  kept :
      (authority : Option String) (c : Call) (s : S) (i : String) (e : Escalation)
      → store.get_escalation s i ≡ some e
      → is_open e.status ≡ true
      → decides authority c ≡ false
      → store.get_escalation (after authority c s) i ≡ some e
  kept authority (create_call x) s i e stored waits idle = elim (create_cases s x) [
    | inl same ↦ rw same stored
    | inr (free, put) ↦ rw put (
        store.read_escalation s x i ∙ elim (Bool-cases (x.plan_id == i)) [
          | inr other ↦ rw other stored
          | inl same ↦ absurd (
              ground (
                arith,
                free,
                waits,
                ap (λ j. has_open (store.get_escalation s j)) (==→≡ x.plan_id i same),
                ap has_open stored,
              ))
        ])
  ]
  kept authority (resolve_call j d note principal) s i e stored waits idle =
      elim (resolve_cases authority s j d note principal) [
        | inl same ↦ rw same stored
        | inr (p, y, _, _, allowed, put) ↦ cc
      ]
  kept authority (patch_call j patch audit) s i e stored waits idle =
      patch-apart s j patch audit i ∙ stored

  -- An open escalation stays as it is through any sequence of calls, until a principal who may decide
  -- resolves one.
  pub manage-undecided :
      (authority : Option String) (cs : List Call) (s : S) (i : String) (e : Escalation)
      → store.get_escalation s i ≡ some e
      → is_open e.status ≡ true
      → any (decides authority) cs ≡ false
      → store.get_escalation (manage authority cs s) i ≡ some e
  unfolding manage
  manage-undecided authority [] s i e stored waits idle = stored
  manage-undecided authority (c ∷ cs) s i e stored waits idle =
      let (first, rest) = ||-eq-false _ _ idle in
      manage-undecided authority cs (after authority c s) i e
        (kept authority c s i e stored waits first) waits rest
