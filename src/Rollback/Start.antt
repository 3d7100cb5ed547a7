-- ===== src/Rollback/Start.antt =====
-- The degrees at the start of Kahn's algorithm.
use planner_critic_engine.Prelude.{
  ℕ, ◌+◌, ◌≤◌, String, true, ◌||◌, List, [], ◌∷◌, map, ok, >>=-eq-ok, or_key_error, Dict, dict_get,
  dict_set, dict_get-dict_set, ◌==◌, string_eq, nat_eq, contains, nodup, length, is_some, ◌≡◌, refl,
  sym, ap, ◌∙◌, arith, inl, inr, Option-cases,
}
use planner_critic_engine.Schema.Plan.{PlanVersion, Task}
use planner_critic_engine.Schema.Validate.{hard_edges}
use planner_critic_engine.Gates.Clean.{found_eq}
use planner_critic_engine.Gates.DepCycles.{degree, zero_degrees, keys_where}
use planner_critic_engine.Rollback.{count_known, known_degrees}
use planner_critic_engine.Gates.Positions.{ids}
use planner_critic_engine.Rollback.Counts.{Edges, waiting, count_known-degree, degree-set}

abbrev keys : Dict String ℕ → List String
keys m = map (λ e. e.0) m

dict_set-keys :
    (m : Dict String ℕ) (k j : String) (n : ℕ)
    → contains (keys (dict_set m k n)) j ≡ (contains (keys m) j || k == j)
dict_set-keys [] k j n = ground arith
dict_set-keys ((i, v) ∷ m) k j n = ground (
  arith,
  dict_set-keys m k j n,
  string_eq.beq_iff i k,
  string_eq.beq_iff i j,
  string_eq.beq_iff k j,
)

dict_set-nodup :
    (m : Dict String ℕ) (k : String) (n : ℕ)
    → nodup (keys m) ≡ true
    → nodup (keys (dict_set m k n)) ≡ true
dict_set-nodup [] k n h = refl
dict_set-nodup ((i, v) ∷ m) k n h = ground (
  arith,
  dict_set-nodup m k n,
  dict_set-keys m k i n,
  string_eq.beq_iff i k,
  string_eq.beq_iff k i,
)

-- Every degree is 0, and every task has one.
degree_at_start :
    (m : Dict String ℕ) (ts : List Task) (k : String)
    → ((j : String) → degree m j ≡ 0)
    → degree (zero_degrees m ts) k ≡ 0
degree_at_start m [] k h = h k
degree_at_start m (t ∷ ts) k h = elim (Option-cases (dict_get m t.id)) [
  | inr (n, old) ↦ rw old (degree_at_start m ts k h)
  | inl new ↦
      rw new (
        degree_at_start (dict_set m t.id 0) ts k (λ j. degree-set m t.id j 0 ∙ ground (arith, h j)))
]

known_at_start :
    (m : Dict String ℕ) (ts : List Task) (k : String)
    → (is_some (dict_get m k) || contains (ids ts) k) ≡ true
    → is_some (dict_get (zero_degrees m ts) k) ≡ true
known_at_start m [] k h = ground arith
known_at_start m (t ∷ ts) k h = elim (Option-cases (dict_get m t.id)) [
  | inr (n, old) ↦
      let also : t.id ≡ k → is_some (dict_get m k) ≡ true =
        λ same. ap (λ j. is_some (dict_get m j)) (sym same) ∙ ap is_some old in
      rw old (known_at_start m ts k (ground (arith, h, also, string_eq.beq_iff t.id k)))
  | inl new ↦ rw new (
      known_at_start (dict_set m t.id 0) ts k
        (ground (arith, h, dict_get-dict_set m t.id k 0, string_eq.beq_iff t.id k)))
]

once_at_start :
    (m : Dict String ℕ) (ts : List Task)
    → nodup (keys m) ≡ true
    → nodup (keys (zero_degrees m ts)) ≡ true
once_at_start m [] h = h
once_at_start m (t ∷ ts) h = elim (Option-cases (dict_get m t.id)) [
  | inr (n, old) ↦ rw old (once_at_start m ts h)
  | inl new ↦ rw new (once_at_start (dict_set m t.id 0) ts (dict_set-nodup m t.id 0 h))
]

-- Counting the edges keeps the keys.
counted-known :
    (m z : Dict String ℕ) (es : Edges) (k : String)
    → count_known m es ≡ ok z
    → is_some (dict_get m k) ≡ true
    → is_some (dict_get z k) ≡ true
counted-known m z [] k run h = ap (λ y. is_some (dict_get y k)) (sym (found_eq m z run)) ∙ h
counted-known m z ((src, dst) ∷ es) k run h =
    let (n, _, later) = >>=-eq-ok (or_key_error (dict_get m dst)) _ run in
    counted-known (dict_set m dst (n + 1)) z es k later
      (ground (arith, h, dict_get-dict_set m dst k (n + 1)))

counted-nodup :
    (m z : Dict String ℕ) (es : Edges)
    → count_known m es ≡ ok z
    → nodup (keys m) ≡ true
    → nodup (keys z) ≡ true
counted-nodup m z [] run h = ap (λ y. nodup (keys y)) (sym (found_eq m z run)) ∙ h
counted-nodup m z ((src, dst) ∷ es) run h =
    let (n, _, later) = >>=-eq-ok (or_key_error (dict_get m dst)) _ run in
    counted-nodup (dict_set m dst (n + 1)) z es later (dict_set-nodup m dst (n + 1) h)

-- The nodes of the first queue are the keys of degree 0.
abbrev pub starts : Dict String ℕ → List String
starts m = keys_where (λ n. n == 0) m

starts-keys :
    (m : Dict String ℕ) (k : String) → contains (starts m) k ≡ true → contains (keys m) k ≡ true
starts-keys [] k h = h
starts-keys ((i, n) ∷ m) k h = ground (arith, starts-keys m k)

pub starts-degree :
    (m : Dict String ℕ) (k : String)
    → nodup (keys m) ≡ true
    → contains (starts m) k ≡ true
    → degree m k ≡ 0
starts-degree [] k once h = cc
starts-degree ((i, n) ∷ m) k once h =
    ground (arith, starts-degree m k, starts-keys m k, string_eq.beq_iff i k)

pub degree-starts :
    (m : Dict String ℕ) (k : String)
    → is_some (dict_get m k) ≡ true
    → degree m k ≡ 0
    → contains (starts m) k ≡ true
degree-starts [] k known h = cc
degree-starts ((i, n) ∷ m) k known h = ground (arith, degree-starts m k)

pub starts-length : (m : Dict String ℕ) → length (starts m) ≤ length m
starts-length [] = omega arith
starts-length ((i, n) ∷ m) = ground (arith, starts-length m)

-- The degrees of a plan whose dependencies all lead to tasks.
module _ (plan : PlanVersion) (z : Dict String ℕ) (run : known_degrees plan ≡ ok z) where
  pub start-degree : (k : String) → degree z k ≡ waiting [] k (hard_edges plan)
  start-degree k = omega (
    arith,
    count_known-degree (zero_degrees [] plan.tasks) z (hard_edges plan) k run,
    degree_at_start [] plan.tasks k (λ j. refl),
  )

  pub start-nodup : nodup (map (λ e. e.0) z) ≡ true
  start-nodup =
      counted-nodup (zero_degrees [] plan.tasks) z (hard_edges plan) run
        (once_at_start [] plan.tasks refl)

  pub start-known :
      (k : String) → contains (ids plan.tasks) k ≡ true → is_some (dict_get z k) ≡ true
  start-known k h =
      counted-known (zero_degrees [] plan.tasks) z (hard_edges plan) k run
        (known_at_start [] plan.tasks k h)
