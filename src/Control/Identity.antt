-- ===== src/Control/Identity.antt =====
-- state_store.py: what identifies a row's source, sink and key, and the columns a select_list gained.
use lakefed_ingest.Prelude.{
  ℕ, Option, none, some, not, ◌||◌, List, [], ◌∷◌, ◌++◌, map, Text, codes, text_mem, lower, strip,
  split_commas, is_truthy, or_text, join, decimal, Result, ok, ◌>>=◌, if◌then◌else◌, ◌==◌,
  filter_by,
}
use lakefed_ingest.Strategies.{Unsupported, adapter_port, src_type_name, get_adapter, default_port}
use lakefed_ingest.Control.{ControlRow, split}

-- `int(value or default)` of a port.
abbrev pub or_port : Option ℕ → ℕ → ℕ
or_port none d = d
or_port (some p) d = if p == 0 then d else p

-- `cfg.get("src_host") or cfg.get("src_connection") or ""`
abbrev pub host_or_connection : ControlRow → Text
host_or_connection cfg = or_text cfg.src_host (or_text cfg.src_connection [])

abbrev folded : Text → Text
folded t = lower (strip t)

unfoldable pub source_identity : ControlRow → Result Unsupported Text
source_identity cfg = do
  adapter ← get_adapter cfg.src_type
  let port = or_port cfg.src_port (adapter_port adapter)
  ok (
      src_type_name adapter
      ++ codes "://"
      ++ folded (host_or_connection cfg)
      ++ codes ":"
      ++ decimal port
      ++ codes "/"
      ++ join (codes "/") (
          folded (or_text cfg.src_database []) ∷ folded cfg.src_schema ∷ folded cfg.src_table ∷ []))

unfoldable pub sink_identity : ControlRow → Text
sink_identity cfg =
    let sink =
      join (codes ".")
        (folded cfg.sink_catalog ∷ folded cfg.sink_schema ∷ folded cfg.sink_table ∷ []) in
    let cid = strip (or_text cfg.client_id []) in
    if is_truthy (some cid) then sink ++ codes "#" ++ cid else sink

unfoldable pub merge_key : ControlRow → Option Text
merge_key cfg = elim (join (codes ",") (map lower (split cfg.primary_key))) [
  | [] ↦ none
  | c ∷ s ↦ some (c ∷ s)
]

-- What a checkpoint write records of the row (`identity_values`).
pub record Identity : Type 0 where
  pub source : Text
  pub sink : Text
  pub key : Option Text

unfoldable pub identity_values : ControlRow → Result Unsupported Identity
identity_values cfg = do
  source ← source_identity cfg
  ok (record { source = source; sink = sink_identity cfg; key = merge_key cfg })

-- `select_list_columns`
unfoldable pub select_list_columns : Text → List Text
select_list_columns select_list =
    map (λ c. lower (strip c))
      (filter_by (λ c. is_truthy (some (strip c))) (split_commas select_list))

unfoldable pub select_list_added_columns : Text → Option Text → Option (List Text)
select_list_added_columns control_select_list none = none
select_list_added_columns control_select_list (some recorded) = some (
    filter_by (λ c. not (text_mem c (select_list_columns recorded)))
      (select_list_columns control_select_list))

-- `database_source`: the server, port and credential, as the key of a check stamp.
unfoldable pub database_source : ControlRow → Text
database_source cfg =
    let host = lower (host_or_connection cfg) in
    let credential = or_text cfg.secret_key (or_text cfg.src_connection []) in
    let blank =
      if is_truthy cfg.src_host || not (is_truthy cfg.src_connection)
      then default_port cfg.src_type
      else 0 in
    host ++ codes "|" ++ decimal (or_port cfg.src_port blank) ++ codes "|" ++ credential

-- `ct_engine.source_group_key`: the tables that share a source database.
pub record GroupKey : Type 0 where
  pub host : Text
  pub port : ℕ
  pub database : Option Text
  pub credential : Text

unfoldable pub source_group_key : ControlRow → Result Unsupported GroupKey
source_group_key cfg = do
  adapter ← get_adapter cfg.src_type
  ok (record {
    host = lower (host_or_connection cfg);
    port = or_port cfg.src_port (adapter_port adapter);
    database = cfg.src_database;
    credential = or_text cfg.secret_key (or_text cfg.src_connection []);
  })
