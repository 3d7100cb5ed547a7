-- ===== src/Runtime/Ttl.antt =====
-- loop/ttl.py: the expiry of an approval. Times count seconds.
use planner_critic_engine.Prelude.{
  ℕ, ◌+◌, ◌≤◌, String, Bool, true, false, Option, none, some, ltb, if◌then◌else◌, ◌≡◌, arith,
}
use planner_critic_engine.Schema.Goal.{ReplanPolicy}

unfoldable pub approval_expired : (approved_at : ℕ) → Option ℕ → (now : ℕ) → Bool
approval_expired approved_at none now = false
approval_expired approved_at (some ttl) now = ltb (approved_at + ttl) now

pub record StalenessCheck : Type 0 where
  pub stale : Bool
  pub replan_policy : ReplanPolicy
  pub reason : Option String

unfoldable pub check_staleness :
    (approved_at : ℕ) → ReplanPolicy → Option ℕ → (now : ℕ) → StalenessCheck
unfolding approval_expired
check_staleness approved_at policy none now = record {
  stale = false;
  replan_policy = policy;
  reason = none;
}
check_staleness approved_at policy (some ttl) now =
    let expired = approval_expired approved_at (some ttl) now in
    record {
      stale = expired;
      replan_policy = policy;
      reason = if expired then some "ttl_expired" else none;
    }

-- A stale approval stays stale, and an approval with a longer time to live goes stale no sooner.
pub check_staleness_later :
    (approved_at ttl ttl' now now' : ℕ) (policy : ReplanPolicy)
    → now ≤ now'
    → ttl' ≤ ttl
    → (check_staleness approved_at policy (some ttl) now).stale ≡ true
    → (check_staleness approved_at policy (some ttl') now').stale ≡ true
unfolding check_staleness
check_staleness_later approved_at ttl ttl' now now' policy later shorter stale = ground arith
