-- ===== src/Store/Latest.antt =====
-- The latest revision of a plan in the store, and listing.
use planner_critic_engine.Prelude.{
  ℕ, ◌≤◌, String, true, some, none, List, [], ◌∷◌, ◌≡◌, refl, ◌∙◌, sym, arith, string_eq, nat_eq,
  pair_eq, Dict, dict_get, is_some, contains,
}
use planner_critic_engine.Store.{InMemoryStore, Revision, versions_of, maximum, latest, get_plan}

maximum-ge : (v : ℕ) (ws : List ℕ) → v ≤ maximum v ws
maximum-ge v [] = omega arith
maximum-ge v (w ∷ ws) = ground (arith, maximum-ge w ws, maximum-ge v ws)

maximum-upper : (v : ℕ) (ws : List ℕ) (x : ℕ) → contains (v ∷ ws) x ≡ true → x ≤ maximum v ws
maximum-upper v [] x h = ground arith
maximum-upper v (w ∷ ws) x h =
    ground (arith, maximum-upper w ws x, maximum-upper v ws x, maximum-ge w ws, maximum-ge v ws)

maximum-member : (v : ℕ) (ws : List ℕ) → contains (v ∷ ws) (maximum v ws) ≡ true
maximum-member v [] = ground arith
maximum-member v (w ∷ ws) = ground (arith, maximum-member w ws, maximum-member v ws)

pub contains-versions_of :
    {A : Type 0} (m : Dict Revision A) (i : String) (v : ℕ)
    → contains (versions_of m i) v ≡ is_some (dict_get m (i, v))
contains-versions_of [] i v = refl
contains-versions_of (((j, w), a) ∷ m) i v = ground (arith, contains-versions_of m i v)

latest-newest :
    (s : InMemoryStore) (i : String) (vs : List ℕ) (v : ℕ)
    → ((x : ℕ) → contains vs x ≡ is_some (dict_get s.plans (i, x)))
    → contains vs v ≡ true
    → (w : ℕ) × (v ≤ w)
      × (is_some (dict_get s.plans (i, w)) ≡ true)
      × (latest s i vs ≡ dict_get s.plans (i, w))
latest-newest s i [] v exact listed = cc
latest-newest s i (w ∷ ws) v exact listed = (
  maximum w ws,
  maximum-upper w ws v listed,
  sym (exact (maximum w ws)) ∙ maximum-member w ws,
  refl,
)

-- Where a revision of a plan is stored, the latest one is too, under the version that `get_plan`
-- without a version takes, and this is at least the version of the former.
pub get_plan-newest :
    (s : InMemoryStore) (i : String) (v : ℕ)
    → is_some (get_plan s i (some v)) ≡ true
    → (w : ℕ) × (v ≤ w)
      × (is_some (get_plan s i (some w)) ≡ true)
      × (get_plan s i none ≡ get_plan s i (some w))
unfolding get_plan
get_plan-newest s i v stored =
    latest-newest s i (versions_of s.plans i) v (contains-versions_of s.plans i)
      (contains-versions_of s.plans i v ∙ stored)
