-- ===== src/Planner/Route.antt =====
-- planner.route_tables: where each control row goes.
pub mod Partition
pub mod Safety
pub mod Total
use lakefed_ingest.Prelude.{
  ℕ, Option, none, some, Bool, true, false, not, ◌&&◌, ◌||◌, List, [], ◌∷◌, Text, codes, text_eq,
  lower, or_text, Result, ok, err, ◌>>=◌, if◌then◌else◌,
}
use lakefed_ingest.Strategies.{Unsupported, unsupported_reason}
use lakefed_ingest.Control.{
  ControlRow, Checkpoint, Json, null, bool, number, string, array, object, Loads, Problem, bad_pair,
  column_not_text, strategy_name, strategy_of, incremental,
}
use lakefed_ingest.Control.Sink.{is_append}
use lakefed_ingest.Control.Identity.{select_list_added_columns}
use lakefed_ingest.Control.Positions.{CursorPosition, decode_position}
use lakefed_ingest.Planner.Plans.{
  Reason, Route, unsupported, full, seed, cursor_seed, pending, reseed, schema_reseed, cursor, Plan,
  plan, or_next, config_error,
}
use lakefed_ingest.Planner.Rows.{moved}

-- The parameters of a run that routing reads.
pub record Settings : Type 0 where
  pub loads : Loads
  pub mixed_sinks : List (List Text)
  pub reseed_on_new_columns : Bool
  pub snapshot_isolation : Bool
  pub existing_sinks : Option (List Text)

-- What the loop appends for one row.
pub data Routed : Type 0 where
  planned : Plan → Routed
  candidate legacy : ControlRow → Checkpoint → Routed

abbrev bad_pair_of : Option Unsupported → Option Problem
bad_pair_of none = none
bad_pair_of (some e) = some (bad_pair e)

-- The reason that a row is not run at all, if any.
unfoldable pub row_problem : Settings → ControlRow → Option Problem
row_problem s cfg =
    or_next (config_error s.loads s.mixed_sinks s.snapshot_isolation cfg)
      (bad_pair_of (unsupported_reason cfg.src_type cfg.load_type))

-- A checkpoint in the incremental phase that the strategy wrote.
unfoldable pub resumes : Text → Checkpoint → Bool
resumes strategy cp = text_eq cp.phase incremental && text_eq (strategy_of cp) strategy

-- `pos["col"].lower()`, which only a text has.
abbrev lower_text : Json → Result Problem Text
lower_text (string t) = ok (lower t)
lower_text _ = err column_not_text

abbrev has_columns : Option (List Text) → Bool
has_columns none = false
has_columns (some []) = false
has_columns (some (c ∷ cs)) = true

abbrev columns : Option (List Text) → List Text
columns none = []
columns (some cs) = cs

-- A cursor table whose position is usable.
cursor_increment : Settings → ControlRow → Checkpoint → CursorPosition → Result Problem Plan
cursor_increment s cfg cp pos = do
  gone ← moved cfg (some cp) s.existing_sinks
  let added = select_list_added_columns cfg.select_list cp.select_list
  elim gone [
    | some reason ↦ ok (plan cfg (reseed reason) (some cp))
    | none ↦
        if has_columns added && s.reseed_on_new_columns
        then ok (plan cfg (schema_reseed (columns added)) (some cp))
        else ok (plan cfg (cursor pos) (some cp))
  ]

-- The last of the seed tests, which is reached only when the others pass.
cursor_column_test : Settings → ControlRow → Checkpoint → CursorPosition → Result Problem Plan
unfolding cursor_increment
cursor_column_test s cfg cp pos = do
  col ← lower_text pos.col
  if text_eq col (lower (or_text cfg.cursor_column []))
      then cursor_increment s cfg cp pos
      else ok (plan cfg cursor_seed (some cp))

cursor_position : Settings → ControlRow → Checkpoint → Option CursorPosition → Result Problem Plan
unfolding cursor_column_test
cursor_position s cfg cp none = ok (plan cfg cursor_seed (some cp))
cursor_position s cfg cp (some pos) =
    if resumes (codes "cursor") cp
    then cursor_column_test s cfg cp pos
    else ok (plan cfg cursor_seed (some cp))

unfoldable pub route_cursor : Settings → ControlRow → Option Checkpoint → Result Problem Plan
unfolding cursor_position
route_cursor s cfg none = ok (plan cfg cursor_seed none)
route_cursor s cfg (some cp) = cursor_position s cfg cp (decode_position s.loads cp.position)

-- A row whose append may or may not have committed: settled by the worker, unless the row moved.
abbrev settle : Settings → ControlRow → Checkpoint → Result Problem Routed
settle s cfg cp = do
  gone ← moved cfg (some cp) s.existing_sinks
  elim gone [
    | some reason ↦ ok (planned (plan cfg (reseed reason) (some cp)))
    | none ↦ ok (planned (plan cfg pending (some cp)))
  ]

abbrev compared : Settings → ControlRow → Checkpoint → Option (List Text) → Routed
compared s cfg cp none = legacy cfg cp
compared s cfg cp (some []) = candidate cfg cp
compared s cfg cp (some (c ∷ cs)) =
    if s.reseed_on_new_columns
    then planned (plan cfg (schema_reseed (c ∷ cs)) (some cp))
    else candidate cfg cp

-- A CT row whose checkpoint has no append to settle.
abbrev resume : Settings → ControlRow → Checkpoint → Result Problem Routed
resume s cfg cp =
    if resumes (codes "ct") cp
    then (do
      gone ← moved cfg (some cp) s.existing_sinks
      elim gone [
        | some reason ↦ ok (planned (plan cfg (reseed reason) (some cp)))
        | none ↦ ok (compared s cfg cp (select_list_added_columns cfg.select_list cp.select_list))
      ])
    else ok (planned (plan cfg seed (some cp)))

-- `cp.get("pending_run_id") is not None and ct_engine.is_append(cfg)`
abbrev has_pending_append : ControlRow → Option ℕ → Result Problem Bool
has_pending_append cfg none = ok false
has_pending_append cfg (some run) = is_append cfg

unfoldable pub route_ct : Settings → ControlRow → Option Checkpoint → Result Problem Routed
route_ct s cfg none = ok (planned (plan cfg seed none))
route_ct s cfg (some cp) = do
  unsettled ← has_pending_append cfg cp.pending_run_id
  if unsettled then settle s cfg cp else resume s cfg cp

abbrev as_planned : Result Problem Plan → Result Problem Routed
as_planned (ok p) = ok (planned p)
as_planned (err e) = err e

-- The body of the loop of `route_tables`.
unfoldable pub route_row : Settings → ControlRow → Option Checkpoint → Result Problem Routed
route_row s cfg cp = elim (row_problem s cfg) [
  | some problem ↦ ok (planned (plan cfg (unsupported problem) cp))
  | none ↦
      if text_eq (strategy_name cfg) (codes "full")
      then ok (planned (plan cfg full cp))
      else (if text_eq (strategy_name cfg) (codes "cursor")
          then as_planned (route_cursor s cfg cp)
          else route_ct s cfg cp)
]

-- What `route_tables` returns.
pub record Routing : Type 0 where
  pub plans : List Plan
  pub candidates : List (ControlRow × Checkpoint)
  pub legacy_rows : List (ControlRow × Checkpoint)

abbrev pub appended : Routed → Routing → Routing
appended (planned p) r = record r { plans = p ∷ r.plans }
appended (candidate cfg cp) r = record r { candidates = (cfg, cp) ∷ r.candidates }
appended (legacy cfg cp) r = record r { legacy_rows = (cfg, cp) ∷ r.legacy_rows }

abbrev pub no_rows : Routing
no_rows = record { plans = []; candidates = []; legacy_rows = [] }

-- The loop: what a row appends stands before what the later rows append.
unfoldable pub route_tables :
    Settings → (ℕ → Option Checkpoint) → List ControlRow → Result Problem Routing
route_tables s checkpoints [] = ok no_rows
route_tables s checkpoints (cfg ∷ rest) = do
  routed ← route_row s cfg (checkpoints cfg.id)
  later ← route_tables s checkpoints rest
  ok (appended routed later)
