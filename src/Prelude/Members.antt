-- ===== src/Prelude/Members.antt =====
-- Members of lists by the Boolean test, and what `sorted` keeps.
use mathlib.Core.Path.{◌≡◌, refl, subst}
use mathlib.Core.Logic.{inl, inr}
use mathlib.Core.Bool.{Bool, true, false, not, ◌||◌, ◌&&◌}
use mathlib.Core.List.Perm
use mathlib.Core.List.{List, [], ◌∷◌, map, Perm}
use native.Mathlib.Omega.{arith}
use planner_critic_engine.Prelude.Tests.{Bool-cases, is_some}
use planner_critic_engine.Prelude.Equality.{Eq, ◌==◌}
use planner_critic_engine.Prelude.Lists.{filter, unique, contains, nodup, All, Dict, dict_get}
use planner_critic_engine.Prelude.Sorting.{Ord, insert, sorted}
use planner_critic_engine.Prelude.Unique.{contains-filter}

module _ {ℓ} {A : Type ℓ} ⦃e : Eq A⦄ where
  pub All-contains {κ} :
      (P : A → Type κ) (xs : List A) → ((a : A) → contains xs a ≡ true → P a) → All P xs
  All-contains P [] h = tt
  All-contains P (x ∷ xs) h =
      (h x (ground (arith, e.beq_iff x x)), All-contains P xs (λ a m. h a (ground arith)))

  pub contains→All {κ} :
      (P : A → Type κ) (xs : List A) (a : A) → All P xs → contains xs a ≡ true → P a
  contains→All P [] a h m = cc
  contains→All P (x ∷ xs) a h m = elim (Bool-cases (x == a)) [
    | inl same ↦ subst P ((e.beq_iff x a).0 same) h.0
    | inr other ↦ contains→All P xs a h.1 (ground arith)
  ]

  filter_absent : (z : A) (zs : List A) → contains zs z ≡ false → filter (λ y. not (z == y)) zs ≡ zs
  filter_absent z [] h = refl
  filter_absent z (w ∷ ws) h = ground (arith, e.beq_iff w z, e.beq_iff z w, filter_absent z ws)

  pub unique_of_nodup : (xs : List A) → nodup xs ≡ true → unique xs ≡ xs
  unique_of_nodup [] once = refl
  unique_of_nodup (x ∷ xs) once = ground (arith, unique_of_nodup xs, filter_absent x xs)

  -- A list without repetitions is, up to order, a member and the rest.
  pub without-perm :
      (x : A) (xs : List A)
      → nodup xs ≡ true
      → contains xs x ≡ true
      → Perm xs (x ∷ filter (λ y. not (x == y)) xs)
  without-perm x [] once m = cc
  without-perm x (y ∷ ys) once m = elim (Bool-cases (x == y)) [
    | inl same ↦
        let x-y : x ≡ y = (e.beq_iff x y).0 same in
        let absent : contains ys x ≡ false = ground arith in
        rw (same, filter_absent x ys absent, x-y) (Perm.refl (y ∷ ys))
    | inr other ↦ rw other (
        Perm.trans
          (Perm.cons y
            (without-perm x ys (ground arith) (ground (arith, e.beq_iff y x, e.beq_iff x y))))
          (Perm.swap _ _ _))
  ]

  pub nodup-filter : (p : A → Bool) (xs : List A) → nodup xs ≡ true → nodup (filter p xs) ≡ true
  nodup-filter p [] h = refl
  nodup-filter p (x ∷ xs) h = ground (arith, nodup-filter p xs, contains-filter p xs x)

  pub filter-nil :
      (p : A → Bool) (xs : List A) (a : A) → filter p xs ≡ [] → contains xs a ≡ true → p a ≡ false
  filter-nil p xs a empty m =
      let without : contains (filter p xs) a ≡ (contains xs a && p a) = contains-filter p xs a in
      ground (arith, rw empty at without)

  pub filter_none :
      (p : A → Bool) (xs : List A)
      → ((a : A) → contains xs a ≡ true → p a ≡ false)
      → filter p xs ≡ []
  filter_none p [] h = refl
  filter_none p (x ∷ xs) h =
      ground
        (arith, h x (ground (arith, e.beq_iff x x)), filter_none p xs (λ a m. h a (ground arith)))

-- The keys of a dict are what it has a value for.
pub keys-is_some {ℓ κ} :
    {K : Type ℓ} {V : Type κ} ⦃e : Eq K⦄ (m : Dict K V) (k : K)
    → contains (map (λ p. p.0) m) k ≡ is_some (dict_get m k)
keys-is_some [] k = refl
keys-is_some ((j, v) ∷ m) k = ground (arith, keys-is_some m k)

module _ {ℓ} {A : Type ℓ} ⦃e : Eq A⦄ ⦃o : Ord A⦄ where
  contains-insert :
      (x : A) (xs : List A) (a : A) → contains (insert x xs) a ≡ (x == a || contains xs a)
  unfolding insert
  contains-insert x [] a = refl
  contains-insert x (y ∷ ys) a = ground (arith, contains-insert x ys a)

  pub contains-sorted : (xs : List A) (a : A) → contains (sorted xs) a ≡ contains xs a
  unfolding sorted
  contains-sorted [] a = refl
  contains-sorted (x ∷ xs) a = ground (arith, contains-insert x (sorted xs) a, contains-sorted xs a)

insert-perm {ℓ} : {A : Type ℓ} ⦃o : Ord A⦄ (x : A) (xs : List A) → Perm (insert x xs) (x ∷ xs)
unfolding insert
insert-perm ⦃o⦄ x [] = Perm.refl _
insert-perm ⦃o⦄ x (y ∷ ys) = elim (Bool-cases (o.less y x)) [
  | inl later ↦ rw later (Perm.trans (Perm.cons y (insert-perm x ys)) (Perm.swap _ _ _))
  | inr here ↦ rw here (Perm.refl _)
]

-- Sorting only reorders.
pub sorted-perm {ℓ} : {A : Type ℓ} ⦃o : Ord A⦄ (xs : List A) → Perm (sorted xs) xs
unfolding sorted
sorted-perm [] = Perm.refl _
sorted-perm (x ∷ xs) = Perm.trans (insert-perm x (sorted xs)) (Perm.cons x (sorted-perm xs))
