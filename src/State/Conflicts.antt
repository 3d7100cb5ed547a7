-- ===== src/State/Conflicts.antt =====
-- The queries of the table of locks.
use planner_critic_engine.Prelude.{
  ℕ, String, List, [], ◌∷◌, map, filter, ◌≡◌, refl, ap, Bool-cases, inl, inr,
}
use planner_critic_engine.State.{StateLock, is_locked, pre_execution_conflict}

-- The conflicts before an execution are the locked ones of the resources, in their order.
pub pre_execution_conflict-is_locked :
    (now : ℕ) (table : StateLock) (uris : List String)
    → map (λ c. c.0) (pre_execution_conflict now table uris) ≡ filter (is_locked now table) uris
unfolding pre_execution_conflict
pre_execution_conflict-is_locked now table [] = refl
pre_execution_conflict-is_locked now table (uri ∷ uris) =
    elim (Bool-cases (is_locked now table uri)) [
      | inl busy ↦ rw busy (ap (λ l. uri ∷ l) (pre_execution_conflict-is_locked now table uris))
      | inr free ↦ rw free (pre_execution_conflict-is_locked now table uris)
    ]
