-- ===== src/Tests/Rows.antt =====
-- Rows, checkpoints and a source to run the definitions on.
use lakefed_ingest.Prelude.{
  ℕ, Option, none, some, true, false, List, [], ◌∷◌, codes, Text, ok, ◌==◌, if◌then◌else◌,
}
use lakefed_ingest.Control.{ControlRow, Checkpoint, Loads, incremental}
use lakefed_ingest.Planner.Route.{Settings}
use lakefed_ingest.Planner.Plans.{Plan, plan, seed, merge}
use lakefed_ingest.Planner.Detect.{Queries, Answer}

-- A ct row on a database of its own server.
abbrev pub row : ℕ → ControlRow
row i = record {
  id = i;
  src_type = none;
  src_connection = none;
  src_host = some (codes "sql1");
  src_port = some 1433;
  secret_key = some (codes "key");
  src_database = some (codes "sales");
  src_schema = codes "dbo";
  src_table = codes "orders";
  sink_catalog = codes "main";
  sink_schema = codes "raw";
  sink_table = codes "orders";
  primary_key = some (codes "id");
  load_type = some (codes "ct");
  select_list = codes "id,total";
  use_remote_query = false;
  load_partitioned = false;
  cursor_column = none;
  client_id = some (codes "c1");
  write_mode = some (codes "append");
  client_attrs = none;
}

-- Its checkpoint, at a version.
abbrev pub at : Text → Checkpoint
at version = record {
  strategy = some (codes "ct");
  position = some version;
  phase = incremental;
  status = codes "ok";
  select_list = some (codes "id,total");
  pending_position = none;
  pending_run_id = none;
  source_identity = none;
  sink_identity = none;
  merge_key = none;
  ct_begin_version = some 1;
  last_success_at = some 100;
}

abbrev pub checkpoints : ℕ → Option Checkpoint
checkpoints i =
    if i == 1 then some (at (codes "7")) else (if i == 2 then some (at (codes "9")) else none)

abbrev pub no_json : Loads
no_json text = none

abbrev pub settings : Settings
settings = record {
  loads = no_json;
  mixed_sinks = [];
  reseed_on_new_columns = true;
  snapshot_isolation = false;
  existing_sinks = none;
}

-- A source at version 9, where table 1 has a change of version 8.
abbrev pub answered : Answer
answered = record {
  results = λ i. if i == 1 then some (some 1, true) else some (some 1, false);
  failed_ids = [];
  asked = 1;
}

abbrev pub source : Queries
source = record {
  database_state = none;
  current_version = λ cfg. ok (some 9);
  ct_status = none;
  detect = λ cfg items. ok answered;
}

abbrev pub members : List (ControlRow × Checkpoint)
members = (row 1, at (codes "7")) ∷ (row 2, at (codes "9")) ∷ []

abbrev pub seed_of : ℕ → Plan
seed_of i = plan (row i) seed none

abbrev pub change_of : ℕ → Plan
change_of i = plan (row i) (merge 9 none) (checkpoints i)
