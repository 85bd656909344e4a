-- ===== src/Tests/Records.antt =====
-- Tests of a preparing job's record and of re-discovery, and the witnesses of their theorems.
use lakefed_ingest.Prelude.{
  List, [], ◌∷◌, ◌++◌, Text, codes, lower, none, true, ◌≡◌, refl, length, sort_by, text_eq,
  text_mem, if◌then◌else◌, any, ◌&&◌, map, strip, add_text, text_lt,
}
use lakefed_ingest.Preparing.Data.{
  Entry, Targets, Kind, needs_you, preparing, unreadable, clash, counts_of, waiting_count,
  refreshed_state, refreshed, put, pop, new_record, entry_counts,
}
use lakefed_ingest.Preparing.{
  sorted_out, put_all, kept_entries, with_set_aside, found, leave, leave_out, moved, asked,
  cleared_counts, cleared,
}
use lakefed_ingest.Rediscovery.{
  Row, JobRow, Part, Status, Key, Wanted, whole_server, whole_database, wanted, table_key, key_eq,
  row_key, known_of, from_parts, from_part, from_row, from_scope, from_server, from_database,
  set_default, server_key, control_server, is_in, vanished_rows,
}
use lakefed_ingest.Rediscovery.Adds.{rows_of, takes_in, is_new, wanted-rows_of}
use lakefed_ingest.Preparing.Runs.{
  Op, sets_aside, finds, clears, leaves_out, begun, step, run, IsSound, StaysOut, run-begun,
}

abbrev key : Text → Text → Text
key server database = server ++ codes "/" ++ lower database

abbrev an_entry : Text → Kind → Entry
an_entry database kind = record { server = codes "db1"; database = database; kind = kind }

abbrev sales : Entry
sales = an_entry (codes "Sales") unreadable

abbrev stock : Entry
stock = an_entry (codes "Stock") clash

abbrev no_targets : Targets
no_targets = record { sink_catalog = none; sink_schema = none; sink_table = none }

abbrev first_ops : List Op
first_ops =
    finds (sales ∷ stock ∷ []) (record { unreadable_count = 1; clash_count = 1; closed_count = 0 })
    ∷ leaves_out (sales ∷ [])
    ∷ []

abbrev later_ops : List Op
later_ops = sets_aside (sales ∷ []) ∷ clears (key (codes "db1") (codes "Stock") ∷ []) ∷ []

left_out_test : length (run key first_ops (begun no_targets true)).left_out ≡ 1
unfolding run step moved new_record found kept_entries sorted_out put put_all refreshed
    refreshed_state waiting_count counts_of entry_counts leave_out leave pop asked
left_out_test = refl

waits_test : (run key first_ops (begun no_targets true)).state ≡ needs_you
unfolding run step moved new_record found kept_entries sorted_out put put_all refreshed
    refreshed_state waiting_count counts_of entry_counts leave_out leave pop asked
waits_test = refl

goes_on_test : (run key later_ops (run key first_ops (begun no_targets true))).state ≡ preparing
unfolding run step moved new_record found kept_entries sorted_out put put_all refreshed
    refreshed_state waiting_count counts_of entry_counts leave_out leave pop asked with_set_aside
    cleared cleared_counts sort_by text_eq lower text_mem
goes_on_test = refl

run-begun_example :
    IsSound (run key later_ops (run key first_ops (begun no_targets true)))
    × StaysOut
        (run key first_ops (begun no_targets true)).left_out
        (run key later_ops (run key first_ops (begun no_targets true)))
run-begun_example = run-begun key no_targets true first_ops later_ops

abbrev a_row : Text → Text → Row
a_row database table = record {
  server = codes "DB1:1433";
  database = database;
  schema = codes "dbo";
  table = table;
}

abbrev found_rows : List Row
found_rows =
    a_row (codes "Sales") (codes "T1")
    ∷ a_row (codes "New") (codes "T1")
    ∷ a_row (codes "new") (codes "T2")
    ∷ []

abbrev server_part : Part
server_part = record {
  scope = whole_server;
  server = codes "db1";
  database = [];
  name_filter = none;
}

abbrev database_part : Part
database_part = record {
  scope = whole_database;
  server = codes "db1";
  database = codes "new";
  name_filter = none;
}

abbrev sales_row : JobRow
sales_row = record {
  src_connection = none;
  src_host = codes "db1";
  database = codes "sales";
  schema = codes "dbo";
  table = codes "T0";
}

abbrev statuses : List Status
statuses = record { server = codes "db1"; database = codes "sales"; was_read = true } ∷ []

abbrev removed : List Key
removed = table_key (codes "db1") (codes "new") (codes "dbo") (codes "t1") ∷ []

abbrev new_key : Key
new_key = table_key (codes "db1") (codes "new") (codes "dbo") (codes "t2")

abbrev found_twice : Wanted
found_twice = wanted (server_part ∷ database_part ∷ []) found_rows statuses (sales_row ∷ []) removed

wanted_test : map (λ r. r.table) found_twice.add ≡ codes "T2" ∷ []
unfolding wanted from_parts from_part from_row from_scope from_server from_database known_of
    set_default row_key table_key server_key control_server is_in lower strip text_eq sort_by
    vanished_rows add_text text_lt
wanted_test = refl

vanished_test : found_twice.vanished ≡ codes "db1/sales.dbo.T0" ∷ []
unfolding wanted from_parts from_part from_row from_scope from_server from_database known_of
    set_default row_key table_key server_key control_server is_in lower strip text_eq sort_by
    vanished_rows add_text text_lt
vanished_test = refl

wanted-rows_of_example : rows_of new_key found_twice.add ≡ (
    if any
      (λ part.
        any
          (λ row.
            key_eq (row_key row) new_key
            && (takes_in (known_of (sales_row ∷ []) removed) part row
                && is_new (known_of (sales_row ∷ []) removed) new_key))
          found_rows)
      (server_part ∷ database_part ∷ [])
    then 1
    else 0)
wanted-rows_of_example =
    wanted-rows_of (server_part ∷ database_part ∷ []) found_rows statuses (sales_row ∷ []) removed
      new_key
