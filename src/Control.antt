-- ===== src/Control.antt =====
-- The control row and the checkpoint (lakebase_schema.sql), and the helpers of ct_engine.py and
-- state_store.py that read them: names, strategy, write mode, and what identifies a row's source,
-- sink and key.
pub mod Sink
pub mod Identity
pub mod Positions
use lakefed_ingest.Prelude.{
  ℕ, ◌≡◌, Option, none, some, Bool, true, false, not, ◌&&◌, ◌||◌, List, [], ◌∷◌, ◌++◌, map, Text,
  codes, text_eq, text_mem, lower, strip, split_commas, is_truthy, or_text, Result, ok, err, ◌>>=◌,
  filter_by, if◌then◌else◌,
}
use lakefed_ingest.Strategies.{SrcType, Strategy, Unsupported}

-- A row of lakefed_ingest.control: the columns that the modelled code reads. NULL is `none`.
pub record ControlRow : Type 0 where
  pub id : ℕ
  pub src_type : Option Text
  pub src_connection : Option Text
  pub src_host : Option Text
  pub src_port : Option ℕ
  pub secret_key : Option Text
  pub src_database : Option Text
  pub src_schema : Text
  pub src_table : Text
  pub sink_catalog : Text
  pub sink_schema : Text
  pub sink_table : Text
  pub primary_key : Option Text
  pub load_type : Option Text
  pub select_list : Text
  pub use_remote_query : Bool
  pub load_partitioned : Bool
  pub cursor_column : Option Text
  pub client_id : Option Text
  pub write_mode : Option Text
  pub client_attrs : Option Text

-- A row of lakefed_ingest.checkpoint.
pub record Checkpoint : Type 0 where
  pub strategy : Option Text
  pub position : Option Text
  pub phase : Text
  pub status : Text
  pub select_list : Option Text
  pub pending_position : Option Text
  pub pending_run_id : Option ℕ
  pub source_identity : Option Text
  pub sink_identity : Option Text
  pub merge_key : Option Text
  pub ct_begin_version : Option ℕ
  pub last_success_at : Option ℕ

abbrev pub seeding : Text
seeding = codes "seeding"

abbrev pub incremental : Text
incremental = codes "incremental"

-- A value of `json.loads`. A number keeps the text that `str` gives of it; an object is a dict,
-- so its keys are distinct.
mutual
  pub data Json : Type 0 where
    null : Json
    bool : Bool → Json
    number : Text → Json
    string : Text → Json
    array : Items → Json
    object : Fields → Json

  pub data Items : Type 0 where
    nil : Items
    cons : Json → Items → Items

  pub data Fields : Type 0 where
    end : Fields
    field : Text → Json → Fields → Fields

-- `json.loads`, which the code takes from Python: `none` is its ValueError.
abbrev pub Loads : Type 0
Loads = Text → Option Json

-- What a row's own checks raise or report (`ValueError`, and the messages of `config_error`).
pub data Problem : Type 0 where
  needs_primary_key : Option Text → Problem
  connection_not_set : Problem
  snapshot_over_connection : Problem
  invalid_client_id : Text → Problem
  invalid_write_mode : Option Text → Problem
  attrs_not_json : Problem
  attrs_not_object : Problem
  invalid_attr_name : Text → Problem
  attr_given_twice : Text → Problem
  attr_not_scalar : Text → Problem
  client_column_selected : Problem
  append_not_supported : Text → Problem
  columns_clash : List Text → Problem
  sink_claimed_twice : List Text → Problem
  bad_pair : Unsupported → Problem
  not_a_version : Text → Problem
  column_not_text no_members : Problem

-- `_split`: the names of a comma-separated field.
unfoldable pub split : Option Text → List Text
split csv = filter_by (λ c. is_truthy (some c)) (map strip (split_commas (or_text csv [])))

-- `state_store.strategy_name`
unfoldable pub strategy_name : ControlRow → Text
strategy_name cfg = lower (strip (or_text cfg.load_type (codes "ct")))

-- `ct_engine.uses_remote_query`, on a boolean column.
abbrev pub uses_remote_query : ControlRow → Bool
uses_remote_query cfg = cfg.use_remote_query

-- `cp.get("strategy") or ls.CT`
abbrev pub strategy_of : Checkpoint → Text
strategy_of cp = or_text cp.strategy (codes "ct")
