-- ===== src/Prelude/Sorting.antt =====
-- Python's `sorted` on the values that the program sorts: texts, tuples and lists by the
-- lexicographic order. It is stable, as the insertion sort below.
use Prim.Native.Nat.{ℕ, Ordering}
use Prim.Native.String.{String, compare}
use mathlib.Core.Bool.{Bool, true, false, ◌&&◌, ◌||◌, not}
use mathlib.Core.List.{List, [], ◌∷◌}
use planner_critic_engine.Prelude.Tests.{ltb, if◌then◌else◌}
use planner_critic_engine.Prelude.Equality.{Eq, ◌==◌}

-- `a < b`
pub record Ord {ℓ} (A : Type ℓ) : Type ℓ where
  pub less : A → A → Bool

instance abbrev pub nat_ord : Ord ℕ
nat_ord = record { less = ltb }

abbrev pub string_less : String → String → Bool
string_less s t = elim (compare s t) [ Ordering.lt ↦ true | _ ↦ false ]

instance abbrev pub string_ord : Ord String
string_ord = record { less = string_less }

-- `False < True`
abbrev pub bool_less : Bool → Bool → Bool
bool_less a b = not a && b

instance abbrev pub bool_ord : Ord Bool
bool_ord = record { less = bool_less }

instance abbrev pub pair_ord {ℓ κ} :
    {A : Type ℓ} {B : Type κ} ⦃e : Eq A⦄ ⦃o : Ord A⦄ ⦃p : Ord B⦄ → Ord (A × B)
pair_ord ⦃e⦄ ⦃o⦄ ⦃p⦄ = record { less = λ x y. o.less x.0 y.0 || (x.0 == y.0 && p.less x.1 y.1) }

module _ {ℓ} {A : Type ℓ} ⦃e : Eq A⦄ ⦃o : Ord A⦄ where
  abbrev pub list_less : List A → List A → Bool
  list_less [] [] = false
  list_less [] (y ∷ ys) = true
  list_less (x ∷ xs) [] = false
  list_less (x ∷ xs) (y ∷ ys) = o.less x y || (x == y && list_less xs ys)

instance abbrev pub list_ord {ℓ} : {A : Type ℓ} ⦃e : Eq A⦄ ⦃o : Ord A⦄ → Ord (List A)
list_ord = record { less = list_less }

module _ {ℓ} {A : Type ℓ} ⦃o : Ord A⦄ where
  unfoldable pub insert : A → List A → List A
  insert x [] = x ∷ []
  insert x (y ∷ ys) = if o.less y x then y ∷ insert x ys else x ∷ y ∷ ys

  unfoldable pub sorted : List A → List A
  unfolding insert
  sorted [] = []
  sorted (x ∷ xs) = insert x (sorted xs)
