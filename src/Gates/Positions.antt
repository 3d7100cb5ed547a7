-- ===== src/Gates/Positions.antt =====
-- The position of a task in its plan, as `id_to_index` has it, and a list of ids in which each comes
-- after its prerequisites.
use planner_critic_engine.Prelude.{
  ℕ, suc, ◌<◌, String, true, false, some, List, [], ◌∷◌, ◌++◌, map, ◌≡◌, refl, arith, ◌==◌,
  string_eq, Dict, dict_get, dict_set, dict_get-dict_set, contains, contains-append, nodup, subset,
  Bool-cases, inl, inr,
}
use planner_critic_engine.Schema.Plan.{Task}
use planner_critic_engine.Gates.Base.{index_tasks}

abbrev pub ids : List Task → List String
ids ts = map (λ t. t.id) ts

-- Each id has all its prerequisites among the ids placed before it.
abbrev pub IsOrderedFrom : (String → List String) → List String → List String → Type 0
IsOrderedFrom before placed [] = Unit
IsOrderedFrom before placed (x ∷ xs) =
    (subset (before x) placed ≡ true) × IsOrderedFrom before (placed ++ x ∷ []) xs

-- What is not a task keeps its index.
index_tasks_other :
    (m : Dict String ℕ) (n : ℕ) (ts : List Task) (k : String)
    → contains (ids ts) k ≡ false
    → dict_get (index_tasks m n ts) k ≡ dict_get m k
index_tasks_other m n [] k h = refl
index_tasks_other m n (t ∷ ts) k h =
    ground (arith, index_tasks_other (dict_set m t.id n) (suc n) ts k, dict_get-dict_set m t.id k n)

-- An index is known, and below a bound.
abbrev pub IndexBelow : Dict String ℕ → ℕ → String → Type 0
IndexBelow m n k = (i : ℕ) × (dict_get m k ≡ some i) × (i < n)

abbrev AllBelow : Dict String ℕ → ℕ → List String → Type 0
AllBelow m n placed = (k : String) → contains placed k ≡ true → IndexBelow m n k

AllBelow-snoc :
    (m : Dict String ℕ) (n : ℕ) (placed : List String) (x : String)
    → AllBelow m n placed
    → AllBelow (dict_set m x n) (suc n) (placed ++ x ∷ [])
AllBelow-snoc m n placed x h k k_in = elim (Bool-cases (x == k)) [
  | inl same ↦ (n, ground (arith, dict_get-dict_set m x k n), omega arith)
  | inr other ↦
      let (i, found, below) = h k (ground (arith, contains-append placed (x ∷ []) k)) in
      (i, ground (arith, dict_get-dict_set m x k n), omega arith)
]

-- The placed ids and those of the tasks to come do not repeat.
abbrev Apart : List String → List String → Type 0
Apart placed xs = (k : String) → contains xs k ≡ true → contains placed k ≡ false

Apart-snoc :
    (placed : List String) (x : String) (xs : List String)
    → Apart placed (x ∷ xs)
    → contains xs x ≡ false
    → Apart (placed ++ x ∷ []) xs
Apart-snoc placed x xs h once k k_in =
    ground (arith, h k, contains-append placed (x ∷ []) k, string_eq.beq_iff x k)

pub subset-contains :
    (xs ys : List String) (a : String)
    → subset xs ys ≡ true
    → contains xs a ≡ true
    → contains ys a ≡ true
subset-contains [] ys a h m = cc
subset-contains (x ∷ xs) ys a h m = ground (arith, subset-contains xs ys a, string_eq.beq_iff x a)

-- In an ordered list of tasks, a prerequisite of a task has a smaller index than the task.
pub index_before :
    (before : String → List String) (placed : List String) (m : Dict String ℕ) (n : ℕ)
    (ts : List Task) (k p : String)
    → IsOrderedFrom before placed (ids ts)
    → nodup (ids ts) ≡ true
    → ((x : String) → contains (ids ts) x ≡ true → contains placed x ≡ false)
    → ((x : String) → contains placed x ≡ true → IndexBelow m n x)
    → contains (ids ts) k ≡ true
    → contains (before k) p ≡ true
    → (i j : ℕ) × (dict_get (index_tasks m n ts) p ≡ some i)
      × (dict_get (index_tasks m n ts) k ≡ some j)
      × (i < j)
index_before before placed m n [] k p order once apart below k_in p_in = cc
index_before before placed m n (t ∷ ts) k p order once apart below k_in p_in =
    elim (Bool-cases (t.id == k)) [
      | inl same ↦
          let t-k : t.id ≡ k = (string_eq.beq_iff t.id k).0 same in
          let p_placed : contains placed p ≡ true =
            subset-contains (before t.id) placed p order.0 (rw t-k p_in) in
          let (i, found, smaller) = below p p_placed in
          let p_gone : contains (ids (t ∷ ts)) p ≡ false = ground (arith, apart p) in
          let k_gone : contains (ids ts) k ≡ false = rw (← t-k) (ground arith) in
          (
            i,
            n,
            ground (
              arith,
              index_tasks_other (dict_set m t.id n) (suc n) ts p,
              dict_get-dict_set m t.id p n,
            ),
            ground (
              arith,
              index_tasks_other (dict_set m t.id n) (suc n) ts k,
              dict_get-dict_set m t.id k n,
            ),
            smaller,
          )
      | inr other ↦
          index_before before (placed ++ t.id ∷ []) (dict_set m t.id n) (suc n) ts k p order.1
            (ground arith) (Apart-snoc placed t.id (ids ts) apart (ground arith))
            (AllBelow-snoc m n placed t.id below) (ground arith) p_in
    ]
