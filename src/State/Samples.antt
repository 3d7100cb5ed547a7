-- ===== src/State/Samples.antt =====
-- The theorems on the locks at small tables, and a run in which an expired holder gives back the lock
-- of another plan.
use planner_critic_engine.Prelude.{
  ◌*◌, String, true, some, none, [], ◌≡◌, refl, arith, is_some, string_eq,
}
use planner_critic_engine.State.{
  StateLock, wait, fail_fast, World, granted, grant, first_try, release, acquire,
}
use planner_critic_engine.State.Waiting.{acquire_ends}
use planner_critic_engine.State.Holders.{System, Reach, begins, goes, takes, mark, Reach-exclusive}

abbrev free : StateLock
free = record { strategy = fail_fast; lock_timeout = 10; wait_deadline = 0; locks = [] }

abbrev holder : String
holder = "p"

abbrev taken : StateLock
taken = grant 0 free "db" "p"

abbrev one_holder : System
one_holder = record { table = taken; now = 0; held = mark (λ _ _. none) "p" "db" (some 0) }

one_holder-Reach : Reach one_holder
unfolding first_try
one_holder-Reach = goes (begins fail_fast 10 0 0) (takes "p" "db" refl)

Reach-exclusive_example : holder ≡ holder
Reach-exclusive_example =
    Reach-exclusive {y = one_holder} "p" "p" "db" 0 0 one_holder-Reach refl (omega arith) refl
      (omega arith)

-- The lock of p has expired, q takes the resource, p gives it back, and r takes it beside q.
two_holders :
    first_try 12 (release (grant 11 taken "db" "q") "db") "db" "r"
    ≡ granted (grant 12 free "db" "r")
unfolding first_try release
two_holders = refl

abbrev busy : World
busy = record {
  clock = λ n. 500 * n;
  now = λ n. 1;
  table = λ n. record taken { strategy = wait; wait_deadline = 1200 };
}

acquire_ends_example : is_some (acquire busy 4 0 1 (busy.table 0) "db" "q") ≡ true
acquire_ends_example =
    acquire_ends busy (λ n. omega arith) 0 1 (busy.table 0) "db" "q" (omega arith)
