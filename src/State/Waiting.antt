-- ===== src/State/Waiting.antt =====
-- `acquire` ends.
use planner_critic_engine.Prelude.{
  ℕ, zero, suc, ◌+◌, ◌*◌, ◌/◌, ◌≤◌, String, true, some, ◌≡◌, refl, arith, is_some, ltb, Bool-cases,
  Option-cases, inl, inr, ltb→lt,
}
use planner_critic_engine.State.{
  World, StateLock, granted, conflict, must_wait, wait_loop, poll, acquire, first_try,
}

module _ (world : World) (ticks : (n : ℕ) → world.clock n + 500 ≤ world.clock (suc n)) where
  wait_loop_ends :
      (fuel round deadline : ℕ) (uri plan : String)
      → deadline ≤ world.clock round + 500 * fuel
      → is_some (wait_loop world (suc fuel) round deadline uri plan) ≡ true
  unfolding wait_loop
  wait_loop_ends zero round deadline uri plan enough =
      let t = ticks round in
      elim (Bool-cases (ltb (world.clock round) deadline)) [
        | inl early ↦ absurd (omega (arith, ltb→lt _ _ early))
        | inr late ↦ rw late refl
      ]
  wait_loop_ends (suc fuel) round deadline uri plan enough =
      elim (Bool-cases (ltb (world.clock round) deadline)) [
        | inr late ↦ rw late refl
        | inl early ↦ elim (Option-cases (poll (world.now round) (world.table round) uri plan)) [
          | inr (t, taken) ↦ rw (early, taken) refl
          | inl busy ↦
              rw (early, busy)
                (wait_loop_ends fuel (suc round) deadline uri plan (omega (arith, ticks round)))
        ]
      ]

  -- Where a sleep lets the monotonic clock advance by half a second and the loop starts after the
  -- deadline is set, every call of `acquire` returns, under each strategy and whatever other plans do,
  -- in as many rounds as half seconds fit into `wait_deadline`, and two.
  pub acquire_ends :
      (start now : ℕ) (table : StateLock) (uri plan : String)
      → start ≤ world.clock 0
      → is_some (acquire world (suc (suc (table.wait_deadline / 500))) start now table uri plan)
        ≡ true
  unfolding acquire
  acquire_ends start now table uri plan began =
      elim (first_try now table uri plan)
        as (λ t.
          is_some (elim t [
            | granted u ↦ some (granted u)
            | conflict reason ↦ some (conflict reason)
            | must_wait ↦
                wait_loop world (suc (suc (table.wait_deadline / 500))) 0
                  (start + table.wait_deadline) uri plan
          ])
          ≡ true) [
            | granted t ↦ refl
            | conflict reason ↦ refl
            | must_wait ↦
                wait_loop_ends (suc (table.wait_deadline / 500)) 0 (start + table.wait_deadline) uri
                  plan (omega arith)
          ]
