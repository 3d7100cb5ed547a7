-- ===== src/Store/Versions/Samples.antt =====
-- Theorems on the migrations at a small database, whose schema is the list of the scripts that ran.
use planner_critic_engine.Prelude.{
  String, Bool, not, none, some, List, [], ◌∷◌, ◌++◌, ◌≡◌, refl, arith, ok, err, store_unavailable,
  ◌==◌, string_eq, length,
}
use planner_critic_engine.Store.Versions.{Connection, rows, apply_migrations, revert_migrations}
use planner_critic_engine.Store.Versions.Sql.{missed_critiques_down}
use planner_critic_engine.Store.Versions.Levels.{up_to, capped, Ends}
use planner_critic_engine.Store.Versions.Applied.{
  upward, downward, IsLevel, migrate, apply_migrations-Ends, revert_migrations-Ends,
  migrate-IsLevel,
}

-- Every script succeeds but one.
abbrev script : List String → String → List String × Bool
script done sql = (done ++ sql ∷ [], not (sql == missed_critiques_down))

abbrev fresh : Connection (List String)
fresh = record { schema = []; schema_migrations = none }

abbrev latest : Connection (List String)
latest = (apply_migrations script fresh none).0

-- A fresh database goes up to the latest version, and runs four scripts.
latest_version : (apply_migrations script fresh none).1 ≡ ok 4
unfolding apply_migrations
latest_version = refl

latest_scripts : length latest.schema ≡ 4
unfolding apply_migrations
latest_scripts = refl

latest-rows : rows latest ≡ up_to 4
unfolding apply_migrations
latest-rows = refl

-- On the way down the script of version 3 fails.
stays : (revert_migrations script latest 1).1 ≡ err store_unavailable
unfolding apply_migrations revert_migrations
stays = refl

apply_migrations-Ends_example : Ends script (capped 3) (apply_migrations script fresh (some 3))
apply_migrations-Ends_example =
    apply_migrations-Ends script fresh 0 (some 3) (omega arith) refl (omega arith)

revert_migrations-Ends_example : Ends script 1 (revert_migrations script latest 1)
revert_migrations-Ends_example =
    revert_migrations-Ends script latest 4 1 (omega arith) latest-rows (omega arith)

migrate-IsLevel_example :
    IsLevel (migrate script (upward none ∷ downward 2 ∷ upward (some 1) ∷ []) fresh)
migrate-IsLevel_example =
    migrate-IsLevel script (upward none ∷ downward 2 ∷ upward (some 1) ∷ []) fresh
      (0, omega arith, refl)
