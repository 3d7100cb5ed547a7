-- ===== src/Rollback/Counts.antt =====
-- The degrees of Kahn's algorithm count the edges from tasks that are not placed yet.
use planner_critic_engine.Prelude.{
  ℕ, suc, ◌+◌, ◌-◌, String, true, false, not, ◌&&◌, Option, none, some, List, [], ◌∷◌, ◌++◌, ok,
  >>=-eq-ok, or_key_error, Dict, dict_get, dict_set, dict_get-dict_set, ◌==◌, string_eq, nat_eq,
  contains, contains-append, nodup, filter, length, subset, Ord, insert, sorted, if◌then◌else◌, ◌≡◌,
  refl, sym, ap, ◌∙◌, arith,
}
use planner_critic_engine.Gates.Clean.{found_eq}
use planner_critic_engine.Gates.DepCycles.{successors, degree, relax}
use planner_critic_engine.Loop.Reorder.{predecessors}
use planner_critic_engine.Rollback.{count_known}

abbrev pub Edges : Type 0
Edges = List (String × String)

-- How often a text comes in a list, and how many edges lead to it from outside of some ids.
abbrev pub times : String → List String → ℕ
times k ns = length (filter (λ n. n == k) ns)

abbrev pub waiting : List String → String → Edges → ℕ
waiting order k es = length (filter (λ e. e.1 == k && not (contains order e.0)) es)

pub key_found : {A : Type 0} (o : Option A) (a : A) → or_key_error o ≡ ok a → o ≡ some a
key_found none a h = cc
key_found (some b) a h = ap some (found_eq b a h)

pub degree-set :
    (m : Dict String ℕ) (k j : String) (n : ℕ)
    → degree (dict_set m k n) j ≡ (if k == j then n else degree m j)
degree-set m k j n = ground (arith, dict_get-dict_set m k j n)

known-degree : (m : Dict String ℕ) (k : String) (n : ℕ) → dict_get m k ≡ some n → degree m k ≡ n
known-degree m k n h = ap (λ o. elim o [ none ↦ 0 | some i ↦ i ]) h

pub count_known-degree :
    (m z : Dict String ℕ) (es : Edges) (k : String)
    → count_known m es ≡ ok z
    → degree z k ≡ degree m k + waiting [] k es
count_known-degree m z [] k run = ap (λ y. degree y k) (sym (found_eq m z run)) ∙ omega arith
count_known-degree m z ((src, dst) ∷ es) k run =
    let (n, found, later) = >>=-eq-ok (or_key_error (dict_get m dst)) _ run in
    let here : degree m dst ≡ n = known-degree m dst n (key_found (dict_get m dst) n found) in
    ground (
      arith,
      count_known-degree (dict_set m dst (n + 1)) z es k later,
      degree-set m dst k (n + 1),
      here,
      string_eq.beq_iff dst k,
    )

pub relax-degree :
    (m : Dict String ℕ) (ns : List String) (k : String)
    → degree (relax m ns).0 k ≡ degree m k - times k ns
relax-degree m [] k = omega arith
relax-degree m (n ∷ ns) k = ground (
  arith,
  relax-degree (dict_set m n (degree m n - 1)) ns k,
  degree-set m n k (degree m n - 1),
  string_eq.beq_iff n k,
)

-- What becomes free waits for nothing.
pub relax-free :
    (m : Dict String ℕ) (ns : List String) (x : String)
    → contains (relax m ns).1 x ≡ true
    → degree (relax m ns).0 x ≡ 0
relax-free m [] x h = cc
relax-free m (n ∷ ns) x h = ground (
  arith,
  relax-free (dict_set m n (degree m n - 1)) ns x,
  relax-degree (dict_set m n (degree m n - 1)) ns x,
  degree-set m n x (degree m n - 1),
  string_eq.beq_iff n x,
)

module _ ⦃o : Ord String⦄ where
  times-insert : (k x : String) (xs : List String) → times k (insert x xs) ≡ times k (x ∷ xs)
  unfolding insert
  times-insert k x [] = refl
  times-insert k x (y ∷ ys) = ground (arith, times-insert k x ys)

  pub times-sorted : (k : String) (xs : List String) → times k (sorted xs) ≡ times k xs
  unfolding sorted
  times-sorted k [] = refl
  times-sorted k (x ∷ xs) = ground (arith, times-insert k x (sorted xs), times-sorted k xs)

  length-insert : (x : String) (xs : List String) → length (insert x xs) ≡ suc (length xs)
  unfolding insert
  length-insert x [] = refl
  length-insert x (y ∷ ys) = ground (arith, length-insert x ys)

  pub length-sorted : (xs : List String) → length (sorted xs) ≡ length xs
  unfolding sorted
  length-sorted [] = refl
  length-sorted (x ∷ xs) = ground (arith, length-insert x (sorted xs), length-sorted xs)

-- When a node is placed, its successors wait for one edge less each.
pub waiting-placed :
    (order : List String) (node k : String) (es : Edges)
    → contains order node ≡ false
    → times k (successors es node) + waiting (order ++ node ∷ []) k es ≡ waiting order k es
waiting-placed order node k [] new = refl
waiting-placed order node k ((src, dst) ∷ es) new = ground (
  arith,
  waiting-placed order node k es new,
  contains-append order (node ∷ []) src,
  string_eq.beq_iff src node,
  string_eq.beq_iff node src,
)

-- What waits for nothing has its prerequisites placed.
pub none_waiting :
    (order : List String) (k : String) (es : Edges)
    → waiting order k es ≡ 0
    → subset (predecessors es k) order ≡ true
none_waiting order k [] h = refl
none_waiting order k ((src, dst) ∷ es) h = ground (arith, none_waiting order k es)

pub nodup-middle :
    (xs ys : List String) (y : String) → nodup (xs ++ y ∷ ys) ≡ true → contains xs y ≡ false
nodup-middle [] ys y h = refl
nodup-middle (x ∷ xs) ys y h = ground (
  arith,
  nodup-middle xs ys y,
  contains-append xs (y ∷ ys) x,
  string_eq.beq_iff x y,
  string_eq.beq_iff y x,
)
