-- ===== src/Planner/Stamps/Advance.antt =====
-- state_store.bulk_advance_unchanged_sql: what the bulk advance does to the checkpoint of one unchanged table. The
-- detail and the time of the update are left out.
use lakefed_ingest.Prelude.{
  ℕ, Option, none, some, Bool, true, false, not, ◌&&◌, Text, codes, text_eq, if◌then◌else◌, leb,
}
use lakefed_ingest.Control.{Checkpoint, incremental}
use lakefed_ingest.Planner.Detect.{UnchangedRow}

-- The columns that the statement sets, with the position as a number.
pub record Stored : Type 0 where
  pub position : ℕ
  pub status : Text
  pub select_list : Option Text
  pub ct_begin_version : Option ℕ
  pub source_identity : Option Text
  pub sink_identity : Option Text
  pub merge_key : Option Text
  pub last_success_at : Option ℕ

abbrev pub stored_of : Checkpoint → ℕ → Stored
stored_of cp position = record {
  position = position;
  status = cp.status;
  select_list = cp.select_list;
  ct_begin_version = cp.ct_begin_version;
  source_identity = cp.source_identity;
  sink_identity = cp.sink_identity;
  merge_key = cp.merge_key;
  last_success_at = cp.last_success_at;
}

abbrev pub coalesce {ℓ} : {A : Type ℓ} → Option A → Option A → Option A
coalesce none b = b
coalesce (some a) b = some a

abbrev pub greatest : ℕ → ℕ → ℕ
greatest m n = if leb n m then m else n

abbrev pub is_pending : Option ℕ → Bool
is_pending none = false
is_pending (some run) = true

abbrev pub is_ct_strategy : Option Text → Bool
is_ct_strategy none = false
is_ct_strategy (some t) = text_eq t (codes "ct")

-- The statement's `where`.
abbrev pub applies : Checkpoint → Bool
applies cp =
    text_eq cp.phase incremental
    && (is_ct_strategy cp.strategy && not (is_pending cp.pending_run_id))

unfoldable pub bulk_advance : ℕ → UnchangedRow → Checkpoint → ℕ → Stored
bulk_advance now row cp position =
    if applies cp
    then record {
      position = greatest position row.cur;
      status = codes "ok";
      select_list = coalesce row.select_list cp.select_list;
      ct_begin_version = coalesce cp.ct_begin_version row.begin;
      source_identity = coalesce cp.source_identity (some row.identity.source);
      sink_identity = coalesce cp.sink_identity (some row.identity.sink);
      merge_key = coalesce cp.merge_key row.identity.key;
      last_success_at = some now;
    }
    else stored_of cp position
