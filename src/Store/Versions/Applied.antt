-- ===== src/Store/Versions/Applied.antt =====
-- Where the ledger of the migrations can stand.
use planner_critic_engine.Prelude.{
  ℕ, ◌≤◌, String, Bool, true, false, Option, List, [], ◌∷◌, ltb, ◌≡◌, refl, ap, arith, Bool-cases,
  inl, inr,
}
use planner_critic_engine.Store.{or_empty}
use planner_critic_engine.Store.Versions.{
  Connection, rows, schema_version, apply_migrations, revert_migrations, desired_version,
}
use planner_critic_engine.Store.Versions.Levels.{
  up_to, capped, Ends, apply_from, revert_from, newest-up_to,
}

module _ {S : Type 0} (script : S → String → S × Bool) where
  -- Where the ledger has the migrations up to a version that is not beyond the target, the call
  -- ends with the ledger up to some version: the target, or the last one that is known where the
  -- target is beyond it, and returns it; or it raises, and some script fails.
  pub apply_migrations-Ends :
      (c : Connection S) (k : ℕ) (target : Option ℕ)
      → k ≤ schema_version
      → rows c ≡ up_to k
      → k ≤ desired_version target
      → Ends script (capped (desired_version target)) (apply_migrations script c target)
  unfolding apply_migrations
  apply_migrations-Ends c k target known stored start =
      let newest = newest-up_to k known in
      let allowed : ltb (desired_version target) k ≡ false = ground arith in
      rw (stored, newest, allowed)
        (apply_from script k (desired_version target) c.schema known start)

  -- Where the ledger has the migrations up to a version that is not below the target, the call ends
  -- with the ledger up to some version: the target, and returns it; or it raises, and some script
  -- fails.
  pub revert_migrations-Ends :
      (c : Connection S) (k target : ℕ)
      → k ≤ schema_version
      → rows c ≡ up_to k
      → target ≤ k
      → Ends script target (revert_migrations script c target)
  unfolding revert_migrations
  revert_migrations-Ends c k target known stored start =
      let newest = newest-up_to k known in
      let allowed : ltb k target ≡ false = ground arith in
      rw (stored, newest, allowed) (revert_from script k target c.schema known start)

  -- A call to the wrong side of the version leaves the rows.
  apply_refused :
      (c : Connection S) (k : ℕ) (target : Option ℕ)
      → k ≤ schema_version
      → rows c ≡ up_to k
      → ltb (desired_version target) k ≡ true
      → rows (apply_migrations script c target).0 ≡ up_to k
  unfolding apply_migrations
  apply_refused c k target known stored below = rw (stored, newest-up_to k known, below) refl

  revert_refused :
      (c : Connection S) (k target : ℕ)
      → k ≤ schema_version
      → rows c ≡ up_to k
      → ltb k target ≡ true
      → rows (revert_migrations script c target).0 ≡ up_to k
  unfolding revert_migrations
  revert_refused c k target known stored above = rw (stored, newest-up_to k known, above) refl

-- A call on the database: both directions, to any target.
pub data Call : Type 0 where
  upward : (target : Option ℕ) → Call
  downward : (target : ℕ) → Call

-- The ledger has exactly the migrations up to some version.
abbrev pub IsLevel : {S : Type 0} → Connection S → Type 0
IsLevel c = (k : ℕ) × (k ≤ schema_version) × (rows c ≡ up_to k)

module _ {S : Type 0} (script : S → String → S × Bool) where
  unfoldable pub call : Call → Connection S → Connection S
  unfolding apply_migrations revert_migrations
  call (upward target) c = (apply_migrations script c target).0
  call (downward target) c = (revert_migrations script c target).0

  unfoldable pub migrate : List Call → Connection S → Connection S
  migrate [] c = c
  migrate (x ∷ l) c = migrate l (call x c)

  call-IsLevel : (x : Call) (c : Connection S) → IsLevel c → IsLevel (call x c)
  unfolding call
  call-IsLevel (upward target) c (k, known, stored) =
      elim (Bool-cases (ltb (desired_version target) k)) [
        | inl below ↦ (k, known, apply_refused script c k target known stored below)
        | inr within ↦
            let (j, last, ledger, _) =
              apply_migrations-Ends script c k target known stored (ground (arith, within)) in
            (j, last, ap or_empty ledger)
      ]
  call-IsLevel (downward target) c (k, known, stored) = elim (Bool-cases (ltb k target)) [
    | inl above ↦ (k, known, revert_refused script c k target known stored above)
    | inr within ↦
        let (j, last, ledger, _) =
          revert_migrations-Ends script c k target known stored (ground (arith, within)) in
        (j, last, ap or_empty ledger)
  ]

  -- Through any calls in both directions, to any targets and whatever scripts fail, the ledger has
  -- exactly the migrations up to some version.
  pub migrate-IsLevel :
      (calls : List Call) (c : Connection S) → IsLevel c → IsLevel (migrate calls c)
  unfolding migrate
  migrate-IsLevel [] c h = h
  migrate-IsLevel (x ∷ l) c h = migrate-IsLevel l (call x c) (call-IsLevel x c h)
