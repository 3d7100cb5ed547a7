-- ===== src/Prelude/Results.antt =====
-- What a call that may raise returns. The constructors of `Error` are the exceptions of the modelled
-- code: `PlanningError` with its reason code, a missing dictionary key, a list index out of range, a
-- value that is none of an enum's or is refused, a failed model validation, a refused principal.
use mathlib.Core.Path.{◌≡◌, refl}
use Prim.Native.String.{String}
use mathlib.Core.List.{List, [], ◌∷◌, ◌++◌}
use mathlib.Core.Option.{Option, none, some}

pub data Error : Type 0 where
  planning_error : (reason_code : String) → Error
  key_error index_error value_error validation_error permission_error store_unavailable : Error

-- An exception, or what the call returns.
pub data Result {ℓ} (A : Type ℓ) : Type ℓ where
  err : Error → Result A
  ok : A → Result A

module _ {ℓ κ} {A : Type ℓ} {B : Type κ} where
  infixl 5 ◌>>=◌ ◌>>◌
  abbrev pub ◌>>=◌ : Result A → (A → Result B) → Result B
  err e >>= k = err e
  ok a >>= k = k a

  abbrev pub ◌>>◌ : Result A → Result B → Result B
  r >> s = r >>= λ _. s

  -- A chain that returns has returned at its first call.
  pub >>=-eq-ok :
      (r : Result A) (k : A → Result B) {b : B}
      → (r >>= k) ≡ ok b
      → (a : A) × (r ≡ ok a) × (k a ≡ ok b)
  >>=-eq-ok (err e) k returned = cc
  >>=-eq-ok (ok a) k returned = (a, refl, returned)

  -- What raises does not return.
  pub err_ok : (x : Error) (a : A) → err x ≡ ok a → B
  err_ok x a h = cc

-- `for x in xs: out.extend(f(x))`, where a call may raise.
abbrev pub collect {ℓ κ} :
    {A : Type ℓ} {B : Type κ} → (A → Result (List B)) → List A → Result (List B)
collect f [] = ok []
collect f (x ∷ xs) = do ys ← f x; zs ← collect f xs; ok (ys ++ zs)

-- `m[k]`
abbrev pub or_key_error {ℓ} : {A : Type ℓ} → Option A → Result A
or_key_error none = err key_error
or_key_error (some a) = ok a
