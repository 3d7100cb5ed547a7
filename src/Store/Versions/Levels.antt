-- ===== src/Store/Versions/Levels.antt =====
-- The loops of the migrations from each version.
use planner_critic_engine.Prelude.{
  ℕ, zero, suc, ◌≤◌, ◌<◌, String, Bool, false, some, List, [], ◌∷◌, ◌++◌, map, any, filter, not,
  ◌-◌, reverse, ◌==◌, nat_eq, ltb, leb, ok, err, store_unavailable, Result, ◌≡◌, refl, arith,
  Bool-cases, inl, inr, ltb→lt, ◌⊎◌, if◌then◌else◌,
}
use planner_critic_engine.Store.{maximum}
use planner_critic_engine.Store.Versions.{
  Connection, Migration, Row, row, migrations, schema_version, apply_all, revert_all,
}

-- The rows of the migrations up to a version.
abbrev pub up_to : ℕ → List Row
up_to k = map row (filter (λ m. leb m.version k) migrations)

abbrev pub at : {S : Type 0} → S → ℕ → Connection S
at s k = record { schema = s; schema_migrations = some (up_to k) }

-- The version that `apply_migrations` is to reach.
abbrev pub capped : ℕ → ℕ
capped desired = if ltb schema_version desired then schema_version else desired

abbrev later_than : ℕ → List Migration
later_than k = filter (λ m. ltb k m.version) migrations

module _ {S : Type 0} (script : S → String → S × Bool) where
  -- The ledger has the rows up to a version. This is the goal and is returned, or some script fails.
  abbrev pub Ends : ℕ → Connection S × Result ℕ → Type 0
  Ends goal r =
      (k : ℕ) × (k ≤ schema_version)
      × (r.0.schema_migrations ≡ some (up_to k))
      × ((r.1 ≡ ok k) × (k ≡ goal)
          ⊎ (r.1 ≡ err store_unavailable) × (s : S) × (t : String) × ((script s t).1 ≡ false))

  -- A migration that is not skipped: the loop stops before it, or its script fails, or it goes on.
  apply_step :
      (m : Migration) (ms : List Migration) (current desired goal : ℕ) (s : S) (l : List Row)
      → leb m.version current ≡ false
      → any (λ r. r.0 == m.version) l ≡ false
      → (desired < m.version
          → Ends goal (record { schema = s; schema_migrations = some l }, ok current))
      → ((s' : S)
          → (script s m.up).1 ≡ false
          → Ends goal (record { schema = s'; schema_migrations = some l }, err store_unavailable))
      → ((s' : S)
          → m.version ≤ desired
          → Ends goal (
              apply_all script ms m.version desired
                (record { schema = s'; schema_migrations = some (l ++ row m ∷ []) })))
      → Ends goal (
          apply_all script
            (m ∷ ms)
            current
            desired
            (record { schema = s; schema_migrations = some l }))
  unfolding apply_all
  apply_step m ms current desired goal s l later fresh stop fail more =
      elim (Bool-cases (ltb desired m.version)) [
        | inl beyond ↦ rw (later, beyond) (stop (ltb→lt _ _ beyond))
        | inr within ↦ elim (Bool-cases (script s m.up).1) [
          | inl works ↦
              rw (later, within, works, fresh) (more (script s m.up).0 (ground (arith, within)))
          | inr fails ↦ rw (later, within, fails) (fail (script s m.up).0 fails)
        ]
      ]

  -- From a version on: the next migration is the one after it.
  rise :
      (m : Migration) (ms : List Migration) (k desired : ℕ) (s : S)
      → m.version ≡ suc k
      → k < schema_version
      → k ≤ desired
      → any (λ r. r.0 == m.version) (up_to k) ≡ false
      → ((s' : S)
          → suc k ≤ desired
          → Ends (capped desired) (
              apply_all script ms m.version desired
                (record { schema = s'; schema_migrations = some (up_to k ++ row m ∷ []) })))
      → Ends (capped desired) (apply_all script (m ∷ ms) k desired (at s k))
  rise m ms k desired s next below start fresh more =
      apply_step m ms k desired (capped desired) s (up_to k) (ground (arith, next)) fresh
        (λ stop. (k, omega arith, refl, inl (refl, ground (arith, next))))
        (λ s' fails. (k, omega arith, refl, inr (refl, s, m.up, fails)))
        (λ s' on. more s' (omega (arith, next)))

  apply_4 :
      (desired : ℕ) (s : S)
      → 4 ≤ desired
      → Ends (capped desired) (apply_all script (later_than 4) 4 desired (at s 4))
  unfolding apply_all
  apply_4 desired s start = (4, omega arith, refl, inl (refl, ground arith))

  apply_3 :
      (desired : ℕ) (s : S)
      → 3 ≤ desired
      → Ends (capped desired) (apply_all script (later_than 3) 3 desired (at s 3))
  apply_3 desired s start = rise _ _ 3 desired s refl (omega arith) start refl (apply_4 desired)

  apply_2 :
      (desired : ℕ) (s : S)
      → 2 ≤ desired
      → Ends (capped desired) (apply_all script (later_than 2) 2 desired (at s 2))
  apply_2 desired s start = rise _ _ 2 desired s refl (omega arith) start refl (apply_3 desired)

  apply_1 :
      (desired : ℕ) (s : S)
      → 1 ≤ desired
      → Ends (capped desired) (apply_all script (later_than 1) 1 desired (at s 1))
  apply_1 desired s start = rise _ _ 1 desired s refl (omega arith) start refl (apply_2 desired)

  apply_0 :
      (desired : ℕ) (s : S) → Ends (capped desired) (apply_all script migrations 0 desired (at s 0))
  apply_0 desired s = rise _ _ 0 desired s refl (omega arith) (omega arith) refl (apply_1 desired)

  pub apply_from :
      (k desired : ℕ) (s : S)
      → k ≤ 4
      → k ≤ desired
      → Ends (capped desired) (apply_all script migrations k desired (at s k))
  unfolding apply_all
  apply_from zero desired s known start = apply_0 desired s
  apply_from (suc zero) desired s known start = apply_1 desired s start
  apply_from (suc (suc zero)) desired s known start = apply_2 desired s start
  apply_from (suc (suc (suc zero))) desired s known start = apply_3 desired s start
  apply_from (suc (suc (suc (suc zero)))) desired s known start = apply_4 desired s start
  apply_from (suc (suc (suc (suc (suc k))))) desired s known start = absurd (omega arith)

  -- Down from a version: the next migration to revert is the one of this version.
  fall :
      (m : Migration) (ms : List Migration) (k target : ℕ) (s : S)
      → m.version ≡ suc k
      → suc k ≤ schema_version
      → target ≤ suc k
      → filter (λ r. not (r.0 == m.version)) (up_to (suc k)) ≡ up_to k
      → ((s' : S)
          → target ≤ k
          → Ends target (revert_all script ms (m.version - 1) target (at s' k)))
      → Ends target (revert_all script (m ∷ ms) (suc k) target (at s (suc k)))
  unfolding revert_all
  fall m ms k target s top known start deleted more =
      let now : ltb (suc k) m.version ≡ false = ground (arith, top) in
      elim (Bool-cases (leb m.version target)) [
        | inl stop ↦ rw (now, stop) (suc k, known, refl, inl (refl, ground (arith, stop, top)))
        | inr down ↦ elim (Bool-cases (script s m.down).1) [
          | inl works ↦
              rw (now, down, works, deleted) (more (script s m.down).0 (ground (arith, down, top)))
          | inr fails ↦ rw (now, down, fails) (suc k, known, refl, inr (refl, s, m.down, fails))
        ]
      ]

  revert_0 :
      (target : ℕ) (s : S)
      → target ≤ 0
      → Ends target
          (revert_all script (reverse (filter (λ m. leb m.version 0) migrations)) 0 target (at s 0))
  unfolding revert_all
  revert_0 target s start = (0, omega arith, refl, inl (refl, omega arith))

  revert_1 :
      (target : ℕ) (s : S)
      → target ≤ 1
      → Ends target
          (revert_all script (reverse (filter (λ m. leb m.version 1) migrations)) 1 target (at s 1))
  revert_1 target s start = fall _ _ 0 target s refl (omega arith) start refl (revert_0 target)

  revert_2 :
      (target : ℕ) (s : S)
      → target ≤ 2
      → Ends target
          (revert_all script (reverse (filter (λ m. leb m.version 2) migrations)) 2 target (at s 2))
  revert_2 target s start = fall _ _ 1 target s refl (omega arith) start refl (revert_1 target)

  revert_3 :
      (target : ℕ) (s : S)
      → target ≤ 3
      → Ends target
          (revert_all script (reverse (filter (λ m. leb m.version 3) migrations)) 3 target (at s 3))
  revert_3 target s start = fall _ _ 2 target s refl (omega arith) start refl (revert_2 target)

  revert_4 :
      (target : ℕ) (s : S)
      → target ≤ 4
      → Ends target (revert_all script (reverse migrations) 4 target (at s 4))
  revert_4 target s start = fall _ _ 3 target s refl (omega arith) start refl (revert_3 target)

  pub revert_from :
      (k target : ℕ) (s : S)
      → k ≤ 4
      → target ≤ k
      → Ends target (revert_all script (reverse migrations) k target (at s k))
  unfolding revert_all
  revert_from zero target s known start = revert_0 target s start
  revert_from (suc zero) target s known start = revert_1 target s start
  revert_from (suc (suc zero)) target s known start = revert_2 target s start
  revert_from (suc (suc (suc zero))) target s known start = revert_3 target s start
  revert_from (suc (suc (suc (suc zero)))) target s known start = revert_4 target s start
  revert_from (suc (suc (suc (suc (suc k))))) target s known start = absurd (omega arith)

pub newest-up_to : (k : ℕ) → k ≤ 4 → maximum 0 (map (λ r. r.0) (up_to k)) ≡ k
newest-up_to zero known = refl
newest-up_to (suc zero) known = refl
newest-up_to (suc (suc zero)) known = refl
newest-up_to (suc (suc (suc zero))) known = refl
newest-up_to (suc (suc (suc (suc zero)))) known = refl
newest-up_to (suc (suc (suc (suc (suc k))))) known = absurd (omega arith)
