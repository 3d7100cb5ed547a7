-- ===== src/Runtime/Retries.antt =====
-- run_budget.py: the classifier of failures, with its count of retries for each task.
use planner_critic_engine.Prelude.{
  ℕ, ◌+◌, ◌-◌, ◌≤◌, String, Bool, true, false, ◌&&◌, none, some, List, [], ◌∷◌, Dict, dict_get,
  dict_set, dict_get-dict_set, ◌==◌, string_eq, nat_eq, codes, lower, strip, occurs_in, any, filter,
  length, ltb, if◌then◌else◌, ◌≡◌, ap, ◌∙◌, arith, Bool-cases, inl, inr, ==→≡,
}
use planner_critic_engine.Types.{ExecutionTrace}

pub data Failure : Type 0 where
  transient deterministic ambiguous : Failure

abbrev pub transient_codes : List String
transient_codes =
    "timeout" ∷ "rate_limit" ∷ "network_error" ∷ "connection_reset" ∷ "service_unavailable" ∷ "429"
    ∷ "503" ∷ []

abbrev pub deterministic_codes : List String
deterministic_codes =
    "precondition_drift" ∷ "schema_mismatch" ∷ "missing_dependency" ∷ "invalid_config"
    ∷ "auth_failure" ∷ "permission_denied" ∷ "not_found" ∷ []

pub record ReplanClassifier : Type 0 where
  pub step_max_retries : ℕ
  pub step_retries : Dict String ℕ

-- `self._step_retries.get(task_id, 0)`
abbrev pub retries_of : ReplanClassifier → String → ℕ
retries_of c task_id = elim (dict_get c.step_retries task_id) [ none ↦ 0 | some n ↦ n ]

-- `any(code in err for code in codes)`, on the outcome in lower case without outer white space
abbrev pub names_code : List String → ExecutionTrace → Bool
unfolding lower strip occurs_in
names_code l trace = any (λ code. occurs_in (codes code) (strip (lower (codes trace.outcome)))) l

unfoldable pub classify : ReplanClassifier → ExecutionTrace → Failure × ReplanClassifier
unfolding lower strip occurs_in
classify c trace =
    let retries = retries_of c trace.task_id + 1 in
    if names_code transient_codes trace
    then (
      (if ltb c.step_max_retries retries then ambiguous else transient),
      record c { step_retries = dict_set c.step_retries trace.task_id retries },
    )
    else if names_code deterministic_codes trace
    then (deterministic, c)
    else (ambiguous, c)

unfoldable pub check_step_retry_exceeded : ReplanClassifier → String → Bool
check_step_retry_exceeded c task_id = ltb c.step_max_retries (retries_of c task_id)

-- The answers over a sequence of traces.
unfoldable pub classify_all : ReplanClassifier → List ExecutionTrace → List (String × Failure)
unfolding classify
classify_all c [] = []
classify_all c (trace ∷ traces) =
    let (failure, c') = classify c trace in (trace.task_id, failure) ∷ classify_all c' traces

abbrev pub is_transient : Failure → Bool
is_transient transient = true
is_transient deterministic = false
is_transient ambiguous = false

retried :
    (c : ReplanClassifier) (k i : String) (n : ℕ)
    → retries_of (record c { step_retries = dict_set c.step_retries k n }) i
      ≡ (if k == i then n else retries_of c i)
retried c k i n =
    ap (λ o. elim o [ none ↦ 0 | some m ↦ m ]) (dict_get-dict_set c.step_retries k i n)
    ∙ ground arith

-- The answers of a task that ask for a retry.
abbrev pub retry_answers : String → List (String × Failure) → List (String × Failure)
retry_answers i l = filter (λ a. a.0 == i && is_transient a.1) l

abbrev left : ReplanClassifier → String → ℕ
left c i = c.step_max_retries - retries_of c i

-- One failure uses up at least as many retries as it is answered with.
step-left :
    (c : ReplanClassifier) (i : String) (trace : ExecutionTrace)
    → (if trace.task_id == i && is_transient (classify c trace).0 then 1 else 0)
        + left (classify c trace).1 i
      ≤ left c i
unfolding classify
step-left c i trace =
    let n = retries_of c trace.task_id + 1 in
    let after = retried c trace.task_id i n in
    elim (Bool-cases (names_code transient_codes trace)) [
      | inl named ↦
          rw (classify, named, after)
            (elim (Bool-cases (trace.task_id == i)) [
              | inr other ↦ rw other (omega arith)
              | inl same ↦
                  let here : trace.task_id ≡ i = ==→≡ trace.task_id i same in
                  rw (same, here) (ground arith)
            ])
      | inr other ↦ elim (Bool-cases (names_code deterministic_codes trace)) [
        | inl named ↦ rw (classify, other, named) (ground arith)
        | inr none_named ↦ rw (classify, other, none_named) (ground arith)
      ]
    ]

length-if :
    {A : Type 0} (b : Bool) (x : A) (l : List A)
    → length (if b then x ∷ l else l) ≡ (if b then 1 else 0) + length l
length-if true x l = omega arith
length-if false x l = omega arith

-- Over any sequence of failures a task is answered with a retry at most as often as it has retries
-- left.
pub classify_all-retries :
    (c : ReplanClassifier) (i : String) (traces : List ExecutionTrace)
    → length (retry_answers i (classify_all c traces)) ≤ c.step_max_retries - retries_of c i
unfolding classify_all
classify_all-retries c i [] = omega arith
classify_all-retries c i (trace ∷ traces) =
    let (answer, c') = classify c trace in
    omega (
      arith,
      classify_all-retries c' i traces,
      step-left c i trace,
      length-if (trace.task_id == i && is_transient answer) (trace.task_id, answer)
          (retry_answers i (classify_all c' traces)),
    )
