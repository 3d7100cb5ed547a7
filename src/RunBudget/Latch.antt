-- ===== src/RunBudget/Latch.antt =====
-- The ceilings of a run stay hit.
use planner_critic_engine.Prelude.{
  ℕ, ◌+◌, ◌-◌, Bool, true, false, Option, none, some, List, [], ◌∷◌, ◌≡◌, refl, arith, is_some, ltb,
}
use planner_critic_engine.RunBudget.{RunBudget, record_spend, record_replan, check_timeout, check}

-- What a caller of a budget may do.
pub data Use : Type 0 where
  spend : (usd : ℕ) → Use
  replan : Use
  read : (now : ℕ) → Use

abbrev pub after : Use → RunBudget → RunBudget
after (spend usd) b = record_spend usd b
after replan b = record_replan b
after (read now) b = (check now b).1

after_keeps :
    (u : Use) (b : RunBudget) → is_some b.exceeded ≡ true → is_some (after u b).exceeded ≡ true
unfolding record_spend record_replan check check_timeout
after_keeps (spend usd) b hit = ground arith
after_keeps replan b hit = ground arith
after_keeps (read now) b hit = ground arith

-- The budget refuses from some moment on.
reads-hit : (now : ℕ) (b : RunBudget) → is_some b.exceeded ≡ true → is_some (check now b).0 ≡ true
unfolding check check_timeout
reads-hit now b hit = ground arith

abbrev pub after_all : List Use → RunBudget → RunBudget
after_all [] b = b
after_all (u ∷ us) b = after_all us (after u b)

exceeded_stays :
    (uses : List Use) (now : ℕ) (b : RunBudget)
    → is_some b.exceeded ≡ true
    → is_some (check now (after_all uses b)).0 ≡ true
exceeded_stays [] now b hit = reads-hit now b hit
exceeded_stays (u ∷ us) now b hit = exceeded_stays us now (after u b) (after_keeps u b hit)

-- An amount passes an optional ceiling.
abbrev pub is_over : Option ℕ → ℕ → Bool
is_over none n = false
is_over (some limit) n = ltb limit n

-- A use takes the spend, the depth or the time over its ceiling.
abbrev pub hits : Use → RunBudget → Bool
hits (spend usd) b = is_over b.run_max_budget_usd (b.cumulative_spend_usd + usd)
hits replan b = is_over b.run_max_depth (b.cascading_depth + 1)
hits (read now) b = is_over b.run_max_time (now - b.started_at)

hit-exceeded : (u : Use) (b : RunBudget) → hits u b ≡ true → is_some (after u b).exceeded ≡ true
unfolding record_spend record_replan check check_timeout
hit-exceeded (spend usd) b hit = hit_spend b.run_max_budget_usd refl
  where
    hit_spend :
        (o : Option ℕ) → b.run_max_budget_usd ≡ o → is_some (record_spend usd b).exceeded ≡ true
    hit_spend none none_set = let no_hit : false ≡ true = rw none_set at hit in cc
    hit_spend (some limit) set =
        let above : ltb limit (b.cumulative_spend_usd + usd) ≡ true = rw set at hit in
        rw (set, above) refl
hit-exceeded replan b hit = ground arith
hit-exceeded (read now) b hit = ground arith

pub check-latched :
    (before later : List Use) (u : Use) (now : ℕ) (b : RunBudget)
    → hits u (after_all before b) ≡ true
    → is_some (check now (after_all later (after u (after_all before b)))).0 ≡ true
check-latched before later u now b hit =
    exceeded_stays later now (after u (after_all before b))
      (hit-exceeded u (after_all before b) hit)
