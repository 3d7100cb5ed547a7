-- ===== src/Escalations/Answers.antt =====
-- An open escalation can be decided.
use planner_critic_engine.Prelude.{
  String, Bool, true, false, not, ◌||◌, Option, none, some, List, [], ◌∷◌, ◌==◌, string_eq, ok,
  find, any, all, concat_map, ◌≡◌, refl, ap, ◌∙◌, arith, inl, inr, Bool-cases, Option-cases,
  &&-eq-true, ==→≡,
}
use planner_critic_engine.Schema.Plan.{PlanVersion}
use planner_critic_engine.Types.{Escalation, EscalationStatus, is_open}
use planner_critic_engine.Store.Protocol.{PlanStore}
use planner_critic_engine.Escalations.{
  may_decide, decided, listed, list_escalations, get_by_id, resolve,
}

module _ {S : Type 0} ⦃store : PlanStore S⦄ where
  -- The escalation of another plan has another id.
  abbrev pub apart_from : S → String → Escalation → PlanVersion → Bool
  apart_from s i e p =
      p.id == i || elim (store.get_escalation s p.id) [ none ↦ true | some x ↦ not (x.id == e.id) ]

  found_listed :
      (s : S) (i : String) (e : Escalation) (ps : List PlanVersion)
      → store.get_escalation s i ≡ some e
      → any (λ p. p.id == i) ps ≡ true
      → all (apart_from s i e) ps ≡ true
      → find (λ x. x.id == e.id) (concat_map (λ p. listed none (store.get_escalation s p.id)) ps)
        ≡ some e
  found_listed s i e [] stored present unique = cc
  found_listed s i e (p ∷ ps) stored present unique = elim (Bool-cases (p.id == i)) [
    | inl same ↦
        let here : store.get_escalation s p.id ≡ some e =
          ap (store.get_escalation s) (==→≡ p.id i same) ∙ stored in
        rw here (ground (arith, string_eq.beq_iff e.id e.id))
    | inr other ↦
        let later = found_listed s i e ps stored (ground arith) (ground arith) in
        elim (Option-cases (store.get_escalation s p.id)) [
          | inl absent ↦ rw absent later
          | inr (x, there) ↦
              let differs : (x.id == e.id) ≡ false =
                let apart =
                  (&&-eq-true (apart_from s i e p) (all (apart_from s i e) ps) unique).0 in
                ground (arith, other, rw (other, there) at apart) in
              rw (there, differs) later
        ]
  ]

  -- Where a plan is in the store and its escalation is open and shares its id with none of another
  -- plan, a principal who may decide decides it.
  pub resolve_answers :
      (authority : Option String) (s : S) (i : String) (e : Escalation)
      (decision : EscalationStatus) (note : String) (principal : Option String)
      → store.get_escalation s i ≡ some e
      → is_open e.status ≡ true
      → any (λ p. p.id == i) (store.list_plans s none) ≡ true
      → all (apart_from s i e) (store.list_plans s none) ≡ true
      → may_decide authority principal ≡ true
      → resolve authority s e.id decision note principal ≡ (
        store.put_escalation s (decided e decision note principal),
        ok (decided e decision note principal),
      )
  unfolding resolve get_by_id list_escalations
  resolve_answers authority s i e decision note principal stored waits present unique allowed =
      let found = found_listed s i e (store.list_plans s none) stored present unique in
      rw (resolve, allowed, found, waits) refl
