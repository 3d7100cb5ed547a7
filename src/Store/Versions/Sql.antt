-- ===== src/Store/Versions/Sql.antt =====
-- The scripts of the migrations in store/versions.py.
use planner_critic_engine.Prelude.{String, [], ◌∷◌, text}

abbrev pub initial_up : String
initial_up = text (
    "\n" ∷ "CREATE TABLE IF NOT EXISTS plan_versions (\n"
    ∷ "    plan_id             TEXT NOT NULL,\n" ∷ "    goal_id             TEXT NOT NULL,\n"
    ∷ "    plan_schema_version TEXT NOT NULL,\n" ∷ "    version             INTEGER NOT NULL,\n"
    ∷ "    parent_version      TEXT,\n" ∷ "    created_at          TEXT NOT NULL,\n"
    ∷ "    body                TEXT NOT NULL,\n" ∷ "    PRIMARY KEY (plan_id, version)\n" ∷ ");\n"
    ∷ "CREATE TABLE IF NOT EXISTS findings (\n" ∷ "    plan_id TEXT NOT NULL,\n"
    ∷ "    version INTEGER NOT NULL,\n" ∷ "    body    TEXT NOT NULL,\n"
    ∷ "    PRIMARY KEY (plan_id, version)\n" ∷ ");\n" ∷ "CREATE TABLE IF NOT EXISTS escalations (\n"
    ∷ "    plan_id TEXT NOT NULL,\n" ∷ "    body    TEXT NOT NULL,\n"
    ∷ "    PRIMARY KEY (plan_id)\n" ∷ ");\n" ∷ "CREATE TABLE IF NOT EXISTS execution_traces (\n"
    ∷ "    plan_id TEXT NOT NULL,\n" ∷ "    seq     INTEGER PRIMARY KEY AUTOINCREMENT,\n"
    ∷ "    body    TEXT NOT NULL\n" ∷ ");\n" ∷ "CREATE TABLE IF NOT EXISTS links (\n"
    ∷ "    plan_id  TEXT NOT NULL,\n" ∷ "    version  INTEGER NOT NULL,\n"
    ∷ "    trace_id TEXT NOT NULL,\n" ∷ "    PRIMARY KEY (plan_id, version, trace_id)\n" ∷ ");\n"
    ∷ "CREATE INDEX IF NOT EXISTS idx_plan_goal\n"
    ∷ "    ON plan_versions (goal_id, plan_id, version DESC);\n"
    ∷ "CREATE INDEX IF NOT EXISTS idx_trace_plan\n" ∷ "    ON execution_traces (plan_id);\n" ∷ [])

abbrev pub initial_down : String
initial_down = text (
    "\n" ∷ "        DROP TABLE IF EXISTS links;\n"
    ∷ "        DROP TABLE IF EXISTS execution_traces;\n"
    ∷ "        DROP TABLE IF EXISTS escalations;\n" ∷ "        DROP TABLE IF EXISTS findings;\n"
    ∷ "        DROP TABLE IF EXISTS plan_versions;\n" ∷ "        " ∷ [])

abbrev pub replan_links_up : String
replan_links_up = text (
    "\n" ∷ "        CREATE TABLE IF NOT EXISTS replan_links (\n"
    ∷ "            plan_id          TEXT NOT NULL,\n"
    ∷ "            version          INTEGER NOT NULL,\n"
    ∷ "            parent_plan_id   TEXT NOT NULL,\n"
    ∷ "            parent_version   INTEGER NOT NULL,\n"
    ∷ "            policy           TEXT NOT NULL,\n" ∷ "            partial_execution TEXT,\n"
    ∷ "            body             TEXT NOT NULL,\n"
    ∷ "            PRIMARY KEY (plan_id, version)\n" ∷ "        );\n"
    ∷ "        CREATE INDEX IF NOT EXISTS idx_replan_parent\n"
    ∷ "            ON replan_links (parent_plan_id, parent_version);\n" ∷ "        " ∷ [])

abbrev pub replan_links_down : String
replan_links_down = text ("\n" ∷ "        DROP TABLE IF EXISTS replan_links;\n" ∷ "        " ∷ [])

abbrev pub missed_critiques_up : String
missed_critiques_up = text (
    "\n" ∷ "        CREATE TABLE IF NOT EXISTS missed_critiques (\n"
    ∷ "            plan_id TEXT NOT NULL PRIMARY KEY,\n" ∷ "            body    TEXT NOT NULL\n"
    ∷ "        );\n" ∷ "        " ∷ [])

abbrev pub missed_critiques_down : String
missed_critiques_down =
    text ("\n" ∷ "        DROP TABLE IF EXISTS missed_critiques;\n" ∷ "        " ∷ [])

abbrev pub plan_signatures_up : String
plan_signatures_up = text (
    "\n" ∷ "        CREATE TABLE IF NOT EXISTS plan_signatures (\n"
    ∷ "            plan_id   TEXT NOT NULL,\n" ∷ "            version   INTEGER NOT NULL,\n"
    ∷ "            signature TEXT NOT NULL,\n" ∷ "            PRIMARY KEY (plan_id, version)\n"
    ∷ "        );\n" ∷ "        CREATE INDEX IF NOT EXISTS idx_sig_plan\n"
    ∷ "            ON plan_signatures (plan_id, version);\n" ∷ "        " ∷ [])

abbrev pub plan_signatures_down : String
plan_signatures_down =
    text ("\n" ∷ "        DROP TABLE IF EXISTS plan_signatures;\n" ∷ "        " ∷ [])
