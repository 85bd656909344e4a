-- ===== src/Planner/Plans.antt =====
-- The plans that planner.py makes for the worker, and the row checks that come before them.
use lakefed_ingest.Prelude.{
  ℕ, Option, none, some, Bool, true, false, not, ◌&&◌, List, [], ◌∷◌, ◌++◌, map, Text, codes,
  text_eq, text_mem, lower, is_truthy, Result, ok, err, if◌then◌else◌, any, filter_by,
}
use lakefed_ingest.Strategies.{requires_pk, get_strategy}
use lakefed_ingest.Control.{
  ControlRow, Checkpoint, Loads, Problem, needs_primary_key, connection_not_set,
  snapshot_over_connection, client_column_selected, append_not_supported, columns_clash,
  sink_claimed_twice, split, strategy_name, uses_remote_query,
}
use lakefed_ingest.Control.Sink.{client_id, client_attrs, is_append, client_column, append_columns}
use lakefed_ingest.Control.Positions.{CursorPosition}

-- Why a table is reloaded.
pub data Reason : Type 0 where
  source_changed sink_changed primary_key_changed sink_missing : Reason
  ct_version_reset ct_disabled retention_miss ct_reenabled retention_lapsed : Reason

-- What a plan's `route` is, with the fields that the route carries.
pub data Route : Type 0 where
  unsupported : Problem → Route
  full seed cursor_seed pending fallback : Route
  reseed : Reason → Route
  schema_reseed : List Text → Route
  cursor : CursorPosition → Route
  retention_reseed : Option Reason → Route
  merge : (cur : ℕ) → (ct_begin : Option ℕ) → Route

pub record Plan : Type 0 where
  pub cfg : ControlRow
  pub route : Route
  pub cp : Option Checkpoint
  pub verify_run_id : Option ℕ

abbrev pub plan : ControlRow → Route → Option Checkpoint → Plan
plan cfg route cp = record { cfg = cfg; route = route; cp = cp; verify_run_id = none }

-- `sink_key`, joined as the three parts.
abbrev pub sink_key : ControlRow → List Text
sink_key cfg = lower cfg.sink_catalog ∷ lower cfg.sink_schema ∷ lower cfg.sink_table ∷ []

pub texts_eq : List Text → List Text → Bool
texts_eq [] [] = true
texts_eq [] (t ∷ ts) = false
texts_eq (s ∷ ss) [] = false
texts_eq (s ∷ ss) (t ∷ ts) = text_eq s t && texts_eq ss ts

-- `str(e)` of a caught ValueError, and otherwise the next check.
abbrev pub or_problem : {A : Type 0} → Result Problem A → (A → Option Problem) → Option Problem
or_problem (err e) f = some e
or_problem (ok a) f = f a

abbrev pub or_next : Option Problem → Option Problem → Option Problem
or_next (some e) rest = some e
or_next none rest = rest

-- The checks of `config_error` in the source's order; each is `none` when it passes.
key_error : ControlRow → Option Problem
key_error cfg = elim (get_strategy cfg.load_type) [
  | err e ↦ none
  | ok strategy ↦ elim (split cfg.primary_key) [
    | [] ↦ if requires_pk strategy then some (needs_primary_key cfg.load_type) else none
    | c ∷ cs ↦ none
  ]
]

connection_error : Bool → ControlRow → Option Problem
connection_error snapshot_isolation cfg =
    if uses_remote_query cfg
    then (if not (is_truthy cfg.src_connection)
        then some connection_not_set
        else (if snapshot_isolation && text_eq (strategy_name cfg) (codes "ct")
            then some snapshot_over_connection
            else none))
    else none

abbrev is_some_text : Option Text → Bool
is_some_text none = false
is_some_text (some t) = true

abbrev names_of : List (Text × Option Text) → List Text
names_of attrs = map (λ a. lower a.0) attrs

-- The columns that the sink adds and the select_list has.
clash : Bool → List Text → List Text → List Text
clash append attrs selected =
    filter_by (λ c. text_mem c selected) (attrs ++ (if append then append_columns else []))

columns_error : Option Text → Bool → List Text → ControlRow → Option Problem
unfolding clash
columns_error cid append attrs cfg =
    let selected = map lower (split (some cfg.select_list)) in
    if is_some_text cid && text_mem client_column selected
    then some client_column_selected
    else (if append && not (text_mem (strategy_name cfg) (codes "ct" ∷ codes "full" ∷ []))
        then some (append_not_supported (strategy_name cfg))
        else elim (clash append attrs selected) [
          | [] ↦ none
          | c ∷ cs ↦ some (columns_clash (c ∷ cs))
        ])

shared_sink_error : List (List Text) → ControlRow → Option Problem
unfolding texts_eq
shared_sink_error mixed_sinks cfg =
    if any (λ k. texts_eq (sink_key cfg) k) mixed_sinks
    then some (sink_claimed_twice (sink_key cfg))
    else none

sink_error : Loads → List (List Text) → ControlRow → Option Problem
unfolding columns_error shared_sink_error
sink_error loads mixed_sinks cfg = or_problem (client_id cfg) λ cid.
    or_problem (is_append cfg) λ append. or_problem (client_attrs loads cfg) λ attrs.
      or_next (columns_error cid append (names_of attrs) cfg) (shared_sink_error mixed_sinks cfg)

unfoldable pub config_error : Loads → List (List Text) → Bool → ControlRow → Option Problem
unfolding key_error connection_error sink_error
config_error loads mixed_sinks snapshot_isolation cfg =
    or_next (key_error cfg)
      (or_next (connection_error snapshot_isolation cfg) (sink_error loads mixed_sinks cfg))
