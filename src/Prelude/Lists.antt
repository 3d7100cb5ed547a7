-- ===== src/Prelude/Lists.antt =====
-- Lists with Boolean tests, and Python's `dict` as an association list in insertion order.
use Prim.Native.Nat.{ℕ, zero, suc, ◌+◌}
use mathlib.Core.Path.{◌≡◌, refl}
use mathlib.Core.Bool.{Bool, true, false, ◌&&◌, ◌||◌, not}
use mathlib.Core.Option.{Option, none, some}
use mathlib.Core.List.{List, [], ◌∷◌, ◌++◌}
use native.Mathlib.Omega.{arith}
use planner_critic_engine.Prelude.Tests.{if◌then◌else◌}
use planner_critic_engine.Prelude.Equality.{Eq, ◌==◌}

module _ {ℓ} {A : Type ℓ} where
  abbrev pub length : List A → ℕ
  length [] = 0
  length (x ∷ xs) = suc (length xs)

  abbrev pub get_elem? : List A → ℕ → Option A
  get_elem? [] i = none
  get_elem? (x ∷ xs) zero = some x
  get_elem? (x ∷ xs) (suc i) = get_elem? xs i

  abbrev pub drop : ℕ → List A → List A
  drop zero xs = xs
  drop (suc n) [] = []
  drop (suc n) (x ∷ xs) = drop n xs

  abbrev pub is_empty : List A → Bool
  is_empty [] = true
  is_empty (x ∷ xs) = false

  abbrev pub any : (A → Bool) → List A → Bool
  any p [] = false
  any p (x ∷ xs) = p x || any p xs

  abbrev pub all : (A → Bool) → List A → Bool
  all p [] = true
  all p (x ∷ xs) = p x && all p xs

  abbrev pub filter : (A → Bool) → List A → List A
  filter p [] = []
  filter p (x ∷ xs) = let rest = filter p xs in if p x then x ∷ rest else rest

  abbrev pub find : (A → Bool) → List A → Option A
  find p [] = none
  find p (x ∷ xs) = if p x then some x else find p xs

  abbrev pub All {κ} : (A → Type κ) → List A → Type κ
  All P [] = Unit
  All P (x ∷ xs) = P x × All P xs

  pub length-append : (xs ys : List A) → length (xs ++ ys) ≡ length xs + length ys
  length-append [] ys = omega arith
  length-append (x ∷ xs) ys = omega (arith, length-append xs ys)

  pub any-append : (p : A → Bool) (xs ys : List A) → any p (xs ++ ys) ≡ (any p xs || any p ys)
  any-append p [] ys = refl
  any-append p (x ∷ xs) ys = ground (arith, any-append p xs ys)

  pub All-append {κ} : (P : A → Type κ) (xs ys : List A) → All P xs → All P ys → All P (xs ++ ys)
  All-append P [] ys h k = k
  All-append P (x ∷ xs) ys h k = (h.0, All-append P xs ys h.1 k)

  pub All-map {κ μ} :
      (P : A → Type κ) (Q : A → Type μ) (xs : List A) → ((x : A) → P x → Q x) → All P xs → All Q xs
  All-map P Q [] f h = tt
  All-map P Q (x ∷ xs) f h = (f x h.0, All-map P Q xs f h.1)

-- `for x in xs: out.extend(f(x))`
abbrev pub concat_map {ℓ κ} : {A : Type ℓ} {B : Type κ} → (A → List B) → List A → List B
concat_map f [] = []
concat_map f (x ∷ xs) = f x ++ concat_map f xs

-- `enumerate`, from a first index.
abbrev pub enumerate {ℓ} : {A : Type ℓ} → ℕ → List A → List (A × ℕ)
enumerate n [] = []
enumerate n (x ∷ xs) = (x, n) ∷ enumerate (suc n) xs

module _ {ℓ} {A : Type ℓ} ⦃e : Eq A⦄ where
  abbrev pub contains : List A → A → Bool
  contains [] a = false
  contains (x ∷ xs) a = x == a || contains xs a

  -- The distinct elements: the first occurrence of each stays. Python's `set` of a list.
  abbrev pub unique : List A → List A
  unique [] = []
  unique (x ∷ xs) = x ∷ filter (λ y. not (x == y)) (unique xs)

  -- `set(xs) <= set(ys)`
  abbrev pub subset : List A → List A → Bool
  subset xs ys = all (contains ys) xs

  abbrev pub nodup : List A → Bool
  nodup [] = true
  nodup (x ∷ xs) = not (contains xs x) && nodup xs

  pub contains-append :
      (xs ys : List A) (a : A) → contains (xs ++ ys) a ≡ (contains xs a || contains ys a)
  contains-append [] ys a = refl
  contains-append (x ∷ xs) ys a = ground (arith, contains-append xs ys a)

abbrev pub Dict {ℓ κ} : Type ℓ → Type κ → Type (ℓ ⊔ κ)
Dict K V = List (K × V)

module _ {ℓ κ} {K : Type ℓ} {V : Type κ} ⦃e : Eq K⦄ where
  abbrev pub dict_get : Dict K V → K → Option V
  dict_get [] k = none
  dict_get ((j, v) ∷ m) k = if j == k then some v else dict_get m k

  -- `m[k] = v`: an old key keeps its place, a new one goes to the end.
  abbrev pub dict_set : Dict K V → K → V → Dict K V
  dict_set [] k v = (k, v) ∷ []
  dict_set ((j, w) ∷ m) k v = if j == k then (j, v) ∷ m else (j, w) ∷ dict_set m k v

  -- A dict comprehension over key and value pairs.
  abbrev pub dict_from : Dict K V → List (K × V) → Dict K V
  dict_from m [] = m
  dict_from m ((k, v) ∷ l) = dict_from (dict_set m k v) l

  -- `m.setdefault(k, []).append(v)`
  abbrev pub dict_push : Dict K (List V) → K → V → Dict K (List V)
  dict_push [] k v = (k, v ∷ []) ∷ []
  dict_push ((j, l) ∷ m) k v = if j == k then (j, l ++ v ∷ []) ∷ m else (j, l) ∷ dict_push m k v

  pub dict_get-dict_set :
      (m : Dict K V) (k j : K) (v : V)
      → dict_get (dict_set m k v) j ≡ (if k == j then some v else dict_get m j)
  dict_get-dict_set [] k j v = refl
  dict_get-dict_set ((i, w) ∷ m) k j v =
      ground (arith, dict_get-dict_set m k j v, e.beq_iff k j, e.beq_iff i k, e.beq_iff i j)
