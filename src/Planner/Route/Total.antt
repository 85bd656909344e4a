-- ===== src/Planner/Route/Total.antt =====
-- planner.route_tables and the checks of a row: where they could raise.
use lakefed_ingest.Prelude.{
  ℕ, Option, none, some, Bool, List, [], ◌∷◌, ◌≡◌, refl, Text, Result, ok, err, arith, All,
}
use lakefed_ingest.Strategies.Support.{unsupported_reason-eq-none}
use lakefed_ingest.Strategies.{SrcType, get_adapter, unsupported_reason}
use lakefed_ingest.Control.{ControlRow, Checkpoint, string, Loads}
use lakefed_ingest.Control.Sink.{is_append}
use lakefed_ingest.Control.Identity.{identity_values, source_identity}
use lakefed_ingest.Control.Positions.{CursorPosition, decode_position}
use lakefed_ingest.Planner.Plans.{config_error}
use lakefed_ingest.Planner.Rows.{moved, identity_change}
use lakefed_ingest.Planner.Route.{
  Settings, Routing, appended, no_rows, row_problem, route_cursor, cursor_position, route_ct,
  route_row, route_tables,
}

abbrev Returns {ℓ κ} : {E : Type ℓ} {A : Type κ} → Result E A → Type 0
Returns (ok a) = Unit
Returns (err e) = ⊥

Returns-ok {ℓ κ} : {E : Type ℓ} {A : Type κ} (m : Result E A) → Returns m → (a : A) × (m ≡ ok a)
Returns-ok (ok a) h = (a, refl)
Returns-ok (err e) h = absurd h

-- A row that passed its checks has a write mode.
config_error-write_mode :
    (loads : Loads) (mixed : List (List Text)) (snap : Bool) (cfg : ControlRow)
    → config_error loads mixed snap cfg ≡ none
    → Returns (is_append cfg)
unfolding config_error
config_error-write_mode loads mixed snap cfg h = ground arith

row_problem-eq-none :
    (s : Settings) (cfg : ControlRow)
    → row_problem s cfg ≡ none
    → (config_error s.loads s.mixed_sinks s.snapshot_isolation cfg ≡ none)
      × (unsupported_reason cfg.src_type cfg.load_type ≡ none)
unfolding row_problem
row_problem-eq-none s cfg h = ground arith

identity_values-Returns :
    (cfg : ControlRow) (st : SrcType)
    → get_adapter cfg.src_type ≡ ok st
    → Returns (identity_values cfg)
unfolding identity_values source_identity
identity_values-Returns cfg st h = ground arith

moved-Returns :
    (cfg : ControlRow) (cp : Option Checkpoint) (sinks : Option (List Text))
    → Returns (identity_values cfg)
    → Returns (moved cfg cp sinks)
unfolding moved identity_change
moved-Returns cfg none sinks h = ground arith
moved-Returns cfg (some cp) sinks h = ground arith

row_problem-moved :
    (s : Settings) (cfg : ControlRow) (cp : Option Checkpoint)
    → row_problem s cfg ≡ none
    → Returns (moved cfg cp s.existing_sinks)
row_problem-moved s cfg cp h =
    let (st, lt, found, named, runs) =
      unsupported_reason-eq-none cfg.src_type cfg.load_type (row_problem-eq-none s cfg h).1 in
    moved-Returns cfg cp s.existing_sinks (identity_values-Returns cfg st found)

route_ct-Returns :
    (s : Settings) (cfg : ControlRow) (cp : Option Checkpoint)
    → row_problem s cfg ≡ none
    → Returns (route_ct s cfg cp)
unfolding route_ct
route_ct-Returns s cfg none h = tt
route_ct-Returns s cfg (some cp) h =
    let mode =
      config_error-write_mode s.loads s.mixed_sinks s.snapshot_isolation cfg
        (row_problem-eq-none s cfg h).0 in
    let here = row_problem-moved s cfg (some cp) h in ground arith

-- The column that a cursor position names is a text, as cursor_engine.encode_position writes it.
abbrev NamesColumn : Option CursorPosition → Type 0
NamesColumn none = Unit
NamesColumn (some pos) = (t : Text) × (pos.col ≡ string t)

abbrev pub HasTextColumn : Settings → Option Checkpoint → Type 0
HasTextColumn s none = Unit
HasTextColumn s (some cp) = NamesColumn (decode_position s.loads cp.position)

cursor_position-Returns :
    (s : Settings) (cfg : ControlRow) (cp : Checkpoint) (pos : Option CursorPosition)
    → NamesColumn pos
    → row_problem s cfg ≡ none
    → Returns (cursor_position s cfg cp pos)
unfolding cursor_position
cursor_position-Returns s cfg cp none n h = tt
cursor_position-Returns s cfg cp (some pos) n h = ground (arith, row_problem-moved s cfg (some cp))

route_row-Returns :
    (s : Settings) (cfg : ControlRow) (cp : Option Checkpoint)
    → HasTextColumn s cp
    → Returns (route_row s cfg cp)
unfolding route_row route_cursor
route_row-Returns s cfg none n = ground (arith, route_ct-Returns s cfg none)
route_row-Returns s cfg (some cp) n = ground (
  arith,
  route_ct-Returns s cfg (some cp),
  cursor_position-Returns s cfg cp (decode_position s.loads cp.position) n,
)

-- Every row gets a place, whatever is wrong with it: an unknown engine or load type, a bad client,
-- attributes or write mode, a sink in dispute. It is asked only that each checkpoint's cursor
-- position, if it has one, names its column by a text.
pub route_tables-total :
    (s : Settings) (checkpoints : ℕ → Option Checkpoint) (configs : List ControlRow)
    → All (λ cfg. HasTextColumn s (checkpoints cfg.id)) configs
    → (r : Routing) × (route_tables s checkpoints configs ≡ ok r)
unfolding route_tables
route_tables-total s checkpoints [] h = (no_rows, refl)
route_tables-total s checkpoints (cfg ∷ rest) h =
    let (x, routed) =
      Returns-ok (route_row s cfg (checkpoints cfg.id))
        (route_row-Returns s cfg (checkpoints cfg.id) h.0) in
    let (later, e) = route_tables-total s checkpoints rest h.1 in (appended x later, rw (routed, e))
