-- ===== src/Prelude/Unique.antt =====
-- Laws of `filter`, `contains`, `unique` and `nodup`.
use Prim.Native.Nat.{◌≤◌, ◌<◌}
use mathlib.Core.Path.{◌≡◌, refl, ◌∙◌}
use mathlib.Core.Logic.{inl, inr}
use mathlib.Core.Bool.{Bool, true, not, ◌&&◌}
use mathlib.Core.List.{List, [], ◌∷◌}
use native.Mathlib.Omega.{arith}
use planner_critic_engine.Prelude.Tests.{Bool-cases}
use planner_critic_engine.Prelude.Equality.{Eq, ◌==◌}
use planner_critic_engine.Prelude.Lists.{length, filter, unique, contains, nodup, any}

module _ {ℓ} {A : Type ℓ} where
  pub length-filter-le : (p : A → Bool) (xs : List A) → length (filter p xs) ≤ length xs
  length-filter-le p [] = omega arith
  length-filter-le p (x ∷ xs) = ground (arith, length-filter-le p xs)

  pub any-filter : (p q : A → Bool) (xs : List A) → any q (filter p xs) ≡ any (λ x. p x && q x) xs
  any-filter p q [] = refl
  any-filter p q (x ∷ xs) = ground (arith, any-filter p q xs)

module _ {ℓ} {A : Type ℓ} ⦃e : Eq A⦄ where
  pub contains-filter :
      (p : A → Bool) (xs : List A) (a : A) → contains (filter p xs) a ≡ (contains xs a && p a)
  contains-filter p [] a = refl
  contains-filter p (x ∷ xs) a = elim (Bool-cases (x == a)) [
    | inl same ↦ let x-a : x ≡ a = (e.beq_iff x a).0 same in ground (arith, contains-filter p xs a)
    | inr other ↦ ground (arith, contains-filter p xs a)
  ]

  pub contains-unique : (xs : List A) (a : A) → contains (unique xs) a ≡ contains xs a
  contains-unique [] a = refl
  contains-unique (x ∷ xs) a =
      ground (arith, contains-filter (λ y. not (x == y)) (unique xs) a, contains-unique xs a)

  pub length-unique-le : (xs : List A) → length (unique xs) ≤ length xs
  length-unique-le [] = omega arith
  length-unique-le (x ∷ xs) =
      omega (arith, length-unique-le xs, length-filter-le (λ y. not (x == y)) (unique xs))

  -- Removing a member makes a list shorter.
  pub length-filter-lt :
      (x : A) (xs : List A)
      → contains xs x ≡ true
      → length (filter (λ y. not (x == y)) xs) < length xs
  length-filter-lt x [] h = cc
  length-filter-lt x (y ∷ ys) h = ground (
    arith,
    e.beq_iff x y,
    e.beq_iff y x,
    length-filter-le (λ z. not (x == z)) ys,
    length-filter-lt x ys,
  )

  -- `len(set(xs)) == len(xs)` says that no element comes twice.
  pub nodup_of_length : (xs : List A) → length (unique xs) ≡ length xs → nodup xs ≡ true
  nodup_of_length [] h = refl
  nodup_of_length (x ∷ xs) h =
      let shorter = length-filter-le (λ y. not (x == y)) (unique xs) in
      let rest = nodup_of_length xs (omega (arith, length-unique-le xs)) in
      elim (Bool-cases (contains xs x)) [
        | inr absent ↦ rw absent rest
        | inl present ↦ absurd (
            omega (
              arith,
              length-unique-le xs,
              length-filter-lt x (unique xs) (contains-unique xs x ∙ present),
            ))
      ]
