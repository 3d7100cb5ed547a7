-- ===== src/State.antt =====
-- state.py: views of a snapshot of the world, and the locks of plans on resources. Times count
-- milliseconds. The mutex of the lock is held over each critical section, so a critical section is one
-- function on the table of locks: `first_try`, `poll`, `release`, `is_locked`, `active_locks`,
-- `pre_execution_conflict`.
pub mod Waiting
pub mod Holders
pub mod Conflicts
mod Samples
use planner_critic_engine.Prelude.{
  ℕ, zero, suc, ◌+◌, String, Bool, true, false, not, ◌&&◌, ◌||◌, Option, none, some, List, [], ◌∷◌,
  map, filter, Dict, dict_get, dict_set, ◌==◌, string_eq, ltb, if◌then◌else◌,
}

pub data LockStrategy : Type 0 where
  wait fail_fast escalate : LockStrategy

pub record StateSnapshot (V : Type 0) : Type 0 where
  pub version : String
  pub captured_at : ℕ
  pub snapshot : Dict String V

-- A `StateView` is its snapshot.
unfoldable pub read : {V : Type 0} → StateSnapshot V → String → Option V
read view key = dict_get view.snapshot key

unfoldable pub is_stale : {V : Type 0} → StateSnapshot V → StateSnapshot V → Bool
is_stale view current =
    if not (view.version == current.version) then true else ltb view.captured_at current.captured_at

pub record ResourceLock : Type 0 where
  pub resource_uri : String
  pub plan_id : String
  pub acquired_at : ℕ
  pub lock_timeout : ℕ
  pub released : Bool

abbrev pub is_expired : ℕ → ResourceLock → Bool
is_expired now l = ltb (l.acquired_at + l.lock_timeout) now

abbrev pub is_active : ℕ → ResourceLock → Bool
is_active now l = not l.released && not (is_expired now l)

pub record StateLock : Type 0 where
  pub strategy : LockStrategy
  pub lock_timeout : ℕ
  pub wait_deadline : ℕ
  pub locks : Dict String ResourceLock

abbrev pub resource_locked : String
resource_locked = "resource_locked_by_concurrent_execution"

abbrev pub resource_conflict : String
resource_conflict = "concurrent_resource_conflict"

abbrev pub active : ℕ → Option ResourceLock → Bool
active now none = false
active now (some l) = is_active now l

unfoldable pub is_locked : ℕ → StateLock → String → Bool
is_locked now table uri = active now (dict_get table.locks uri)

-- `self._locks[resource_uri] = ResourceLock(…)`
abbrev pub grant : ℕ → StateLock → String → String → StateLock
grant now table uri plan = record table {
  locks = dict_set table.locks uri (record {
    resource_uri = uri;
    plan_id = plan;
    acquired_at = now;
    lock_timeout = table.lock_timeout;
    released = false;
  });
}

-- What the first critical section of `acquire` decides.
pub data Attempt : Type 0 where
  granted : StateLock → Attempt
  conflict : (reason : String) → Attempt
  must_wait : Attempt

abbrev pub at_conflict : LockStrategy → Attempt
at_conflict fail_fast = conflict resource_conflict
at_conflict escalate = conflict resource_locked
at_conflict wait = must_wait

unfoldable pub first_try : ℕ → StateLock → String → String → Attempt
unfolding is_locked
first_try now table uri plan =
    if is_locked now table uri
    then at_conflict table.strategy
    else granted (grant now table uri plan)

-- A critical section in the body of the loop that waits.
unfoldable pub poll : ℕ → StateLock → String → String → Option StateLock
unfolding is_locked
poll now table uri plan = if is_locked now table uri then none else some (grant now table uri plan)

-- What a waiting call meets in each round: the monotonic clock at the test of the loop, the clock of the
-- locks after the sleep, and the table as the other plans have left it.
pub record World : Type 0 where
  pub clock : ℕ → ℕ
  pub now : ℕ → ℕ
  pub table : ℕ → StateLock

-- The loop of `acquire`, from a round on.
unfoldable pub wait_loop : World → ℕ → ℕ → ℕ → String → String → Option Attempt
wait_loop world zero round deadline uri plan = none
wait_loop world (suc fuel) round deadline uri plan =
    let rest = wait_loop world fuel (suc round) deadline uri plan in
    if ltb (world.clock round) deadline
    then elim (poll (world.now round) (world.table round) uri plan) [
      | some t ↦ some (granted t)
      | none ↦ rest
    ]
    else some (conflict resource_locked)

-- The whole of `acquire`: the deadline counts from the clock at the start.
unfoldable pub acquire : World → ℕ → ℕ → ℕ → StateLock → String → String → Option Attempt
unfolding first_try wait_loop
acquire world fuel start now table uri plan = elim (first_try now table uri plan) [
  | granted t ↦ some (granted t)
  | conflict reason ↦ some (conflict reason)
  | must_wait ↦ wait_loop world fuel 0 (start + table.wait_deadline) uri plan
]

-- `del self._locks[resource_uri]`; the flag that is set on the lock before is lost with it.
abbrev pub dict_del {ℓ} : {V : Type ℓ} → Dict String V → String → Dict String V
dict_del m k = filter (λ e. not (e.0 == k)) m

unfoldable pub release : StateLock → String → StateLock
release table uri = record table { locks = dict_del table.locks uri }

pub active_locks : ℕ → StateLock → List ResourceLock
active_locks now table = filter (is_active now) (map (λ e. e.1) table.locks)

unfoldable pub pre_execution_conflict : ℕ → StateLock → List String → List (String × String)
unfolding is_locked
pre_execution_conflict now table [] = []
pre_execution_conflict now table (uri ∷ uris) =
    let rest = pre_execution_conflict now table uris in
    if is_locked now table uri then (uri, resource_conflict) ∷ rest else rest
