-- ===== src/Store/Versions.antt =====
-- The migrations of the SQLite store, store/versions.py. What a script does to the schema of the
-- database, and whether it fails, is a parameter; the ledger `schema_migrations` is a table of rows.
pub mod Sql
pub mod Levels
pub mod Applied
mod Samples
use planner_critic_engine.Prelude.{
  ℕ, String, Bool, true, false, not, Option, none, some, List, [], ◌∷◌, ◌++◌, map, any, filter,
  reverse, ◌==◌, nat_eq, ltb, leb, ◌-◌, Result, ok, err, store_unavailable, if◌then◌else◌,
}
use planner_critic_engine.Store.{maximum, or_empty}
use Sql.{
  initial_up, initial_down, replan_links_up, replan_links_down, missed_critiques_up,
  missed_critiques_down, plan_signatures_up, plan_signatures_down,
}

pub record Migration : Type 0 where
  pub version : ℕ
  pub name : String
  pub up : String
  pub down : String

-- `MIGRATIONS`
abbrev pub migrations : List Migration
migrations =
    record { version = 1; name = "initial store schema"; up = initial_up; down = initial_down }
    ∷ record {
      version = 2;
      name = "replan links table";
      up = replan_links_up;
      down = replan_links_down;
    }
    ∷ record {
      version = 3;
      name = "missed critiques";
      up = missed_critiques_up;
      down = missed_critiques_down;
    }
    ∷ record {
      version = 4;
      name = "plan signatures";
      up = plan_signatures_up;
      down = plan_signatures_down;
    }
    ∷ []

-- `MIGRATIONS[-1].version`
abbrev pub schema_version : ℕ
schema_version = 4

abbrev pub Row : Type 0
Row = ℕ × String

abbrev pub row : Migration → Row
row m = (m.version, m.name)

-- The database: its schema, and the ledger, where the table exists.
pub record Connection (S : Type 0) : Type 0 where
  pub schema : S
  pub schema_migrations : Option (List Row)

abbrev pub rows : {S : Type 0} → Connection S → List Row
rows c = or_empty c.schema_migrations

-- `CREATE TABLE IF NOT EXISTS schema_migrations`
abbrev pub ensure_migration_table : {S : Type 0} → Connection S → Connection S
ensure_migration_table c = record c { schema_migrations = some (rows c) }

-- `SELECT COALESCE(MAX(version), 0)`
abbrev pub current_schema_version : {S : Type 0} → Connection S → ℕ
current_schema_version c = maximum 0 (map (λ r. r.0) (rows c))

abbrev pub desired_version : Option ℕ → ℕ
desired_version none = schema_version
desired_version (some v) = v

-- `executescript`: the schema that it leaves, and whether it succeeds.
module _ {S : Type 0} (script : S → String → S × Bool) where
  -- The script, then the row; the version is the key of the table.
  abbrev pub apply_one : Connection S → Migration → Connection S × Bool
  apply_one c m =
      let (schema, succeeds) = script c.schema m.up in
      let ran = record c { schema = schema } in
      if not succeeds
      then (ran, false)
      else if any (λ r. r.0 == m.version) (rows c)
      then (ran, false)
      else (record ran { schema_migrations = some (rows c ++ row m ∷ []) }, true)

  abbrev pub revert_one : Connection S → Migration → Connection S × Bool
  revert_one c m =
      let (schema, succeeds) = script c.schema m.down in
      let ran = record c { schema = schema } in
      if not succeeds then (ran, false) else (
        record ran { schema_migrations = some (filter (λ r. not (r.0 == m.version)) (rows c)) },
        true,
      )

  unfoldable pub apply_all : List Migration → ℕ → ℕ → Connection S → Connection S × Result ℕ
  apply_all [] current desired c = (c, ok current)
  apply_all (m ∷ ms) current desired c =
      let skipped = apply_all ms current desired c in
      let next = apply_one c m in
      let applied = apply_all ms m.version desired next.0 in
      if leb m.version current
      then skipped
      else if ltb desired m.version
      then (c, ok current)
      else if next.1
      then applied
      else (next.0, err store_unavailable)

  unfoldable pub revert_all : List Migration → ℕ → ℕ → Connection S → Connection S × Result ℕ
  revert_all [] current target c = (c, ok current)
  revert_all (m ∷ ms) current target c =
      let skipped = revert_all ms current target c in
      let next = revert_one c m in
      let reverted = revert_all ms (m.version - 1) target next.0 in
      if ltb current m.version
      then skipped
      else if leb m.version target
      then (c, ok current)
      else if next.1
      then reverted
      else (next.0, err store_unavailable)

  unfoldable pub apply_migrations : Connection S → Option ℕ → Connection S × Result ℕ
  unfolding apply_all
  apply_migrations connection target =
      let c = ensure_migration_table connection in
      let current = current_schema_version c in
      if ltb (desired_version target) current
      then (c, err store_unavailable)
      else apply_all migrations current (desired_version target) c

  unfoldable pub revert_migrations : Connection S → ℕ → Connection S × Result ℕ
  unfolding revert_all
  revert_migrations connection target =
      let c = ensure_migration_table connection in
      let current = current_schema_version c in
      if ltb current target
      then (c, err store_unavailable)
      else revert_all (reverse migrations) current target c
