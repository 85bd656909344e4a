-- ===== src/Rediscovery.antt =====
-- The operations app's rediscovery.py: what a daily look at a job's sources adds to the job. The fields of a found
-- table and the texts of the errors are left out.
pub mod Adds
use lakefed_ingest.Prelude.{
  ◌+◌, Option, Bool, true, false, not, ◌&&◌, ◌||◌, List, [], ◌∷◌, ◌++◌, map, Text, codes, lower,
  strip, text_eq, text_lt, add_text, or_text, if◌then◌else◌, ◌==◌, leb, filter_by, any, sort_by,
}

all_digits : Text → Bool
all_digits [] = true
all_digits (c ∷ s) = leb b'0' c && leb c b'9' && all_digits s

-- `:\d+$` at the start of the text.
is_port : Text → Bool
unfolding all_digits
is_port [] = false
is_port (c ∷ []) = false
is_port (c ∷ d ∷ s) = c == b':' && all_digits (d ∷ s)

drop_port : Text → Text
unfolding is_port
drop_port [] = []
drop_port (c ∷ s) = if is_port (c ∷ s) then [] else c ∷ drop_port s

unfoldable pub server_key : Text → Text
unfolding drop_port
server_key server = drop_port (lower (strip server))

-- A table as the discovery found it.
pub record Row : Type 0 where
  pub server : Text
  pub database : Text
  pub schema : Text
  pub table : Text

-- A control row of the job.
pub record JobRow : Type 0 where
  pub src_connection : Option Text
  pub src_host : Text
  pub database : Text
  pub schema : Text
  pub table : Text

pub data Scope : Type 0 where
  whole_server whole_database some_tables : Scope

pub record Part : Type 0 where
  pub scope : Scope
  pub server : Text
  pub database : Text
  pub name_filter : Option Text

-- What became of a database that the discovery read.
pub record Status : Type 0 where
  pub server : Text
  pub database : Text
  pub was_read : Bool

unfoldable pub control_server : JobRow → Text
unfolding server_key
control_server row = server_key (or_text row.src_connection row.src_host)

pub record Key : Type 0 where
  pub server : Text
  pub database : Text
  pub schema : Text
  pub table : Text

unfoldable pub table_key : Text → Text → Text → Text → Key
unfolding server_key
table_key server database schema table = record {
  server = lower (server_key server);
  database = lower database;
  schema = lower schema;
  table = lower table;
}

abbrev pub key_eq : Key → Key → Bool
key_eq a b =
    text_eq a.server b.server
    && text_eq a.database b.database
    && text_eq a.schema b.schema
    && text_eq a.table b.table

-- The order of the tuples.
abbrev key_lt : Key → Key → Bool
key_lt a b =
    text_lt a.server b.server
    || (text_eq a.server b.server
        && (text_lt a.database b.database
            || (text_eq a.database b.database
                && (text_lt a.schema b.schema
                    || (text_eq a.schema b.schema && text_lt a.table b.table)))))

unfoldable pub row_key : Row → Key
unfolding table_key
row_key row = table_key row.server row.database row.schema row.table

abbrev pub job_key : JobRow → Key
job_key row = table_key (control_server row) row.database row.schema row.table

abbrev pub mem_key : Key → List Key → Bool
mem_key k keys = any (λ j. key_eq j k) keys

-- A server's key and a database in lower case are in the list.
abbrev pub mem_database : Text → Text → List (Text × Text) → Bool
mem_database server database ds = any (λ d. text_eq (d.0) server && text_eq (d.1) database) ds

starts_with : Text → Text → Bool
starts_with [] s = true
starts_with (c ∷ p) [] = false
starts_with (c ∷ p) (d ∷ s) = c == d && starts_with p s

-- `needle in text`
unfoldable pub is_in : Text → Text → Bool
unfolding starts_with
is_in needle [] = starts_with needle []
is_in needle (c ∷ s) = starts_with needle (c ∷ s) || is_in needle s

-- What the job has, and what it is not to take again.
pub record Known : Type 0 where
  pub have_tables : List Key
  pub have_databases : List (Text × Text)
  pub excluded : List Key

unfoldable pub known_of : List JobRow → List Key → Known
unfolding control_server
known_of job_rows excluded = record {
  have_tables = map job_key job_rows;
  have_databases = map (λ row. (control_server row, lower row.database)) job_rows;
  excluded = excluded;
}

-- `add.setdefault(key, row)`: the dict as its rows, each under its own key.
unfoldable pub set_default : Row → List Row → List Row
unfolding row_key
set_default row add =
    if any (λ r. key_eq (row_key r) (row_key row)) add then add else add ++ (row ∷ [])

abbrev pub unless_had : Known → Row → List Row → List Row
unless_had known row add =
    if mem_key (row_key row) known.have_tables then add else set_default row add

-- The loop's body for a whole-server part.
unfoldable pub from_server : Known → Part → Row → List Row × List Text → List Row × List Text
unfolding is_in set_default add_text
from_server known part row (add, names) =
    let server = server_key part.server in
    if not (text_eq (server_key row.server) server)
      || not (is_in (lower (or_text part.name_filter [])) (lower row.database))
    then (add, names)
    else (if mem_database server (lower row.database) known.have_databases
          || mem_key (row_key row) known.excluded
        then (add, names)
        else (unless_had known row add, add_text (server ++ codes "/" ++ row.database) names))

-- The loop's body for a whole-database part.
unfoldable pub from_database : Known → Part → Row → List Row → List Row
unfolding set_default
from_database known part row add =
    if not (
      text_eq (server_key row.server) (server_key part.server)
      && text_eq (lower row.database) (lower part.database))
    then add
    else (if not (mem_key (row_key row) known.have_tables)
          && not (mem_key (row_key row) known.excluded)
        then set_default row add
        else add)

unfoldable pub from_scope : Scope → Known → Part → Row → List Row × List Text → List Row × List Text
unfolding from_server from_database
from_scope whole_server known part row found = from_server known part row found
from_scope whole_database known part row found = (from_database known part row (found.0), found.1)
from_scope some_tables known part row found = found

unfoldable pub from_row : Known → Part → Row → List Row × List Text → List Row × List Text
unfolding from_scope
from_row known part row found = from_scope part.scope known part row found

unfoldable pub from_part : Known → Part → List Row → List Row × List Text → List Row × List Text
unfolding from_row
from_part known part [] found = found
from_part known part (row ∷ rows) found = from_part known part rows (from_row known part row found)

unfoldable pub from_parts :
    Known → List Part → List Row → List Row × List Text → List Row × List Text
unfolding from_part
from_parts known [] rows found = found
from_parts known (part ∷ parts) rows found =
    from_parts known parts rows (from_part known part rows found)

-- Whether the job's parts take in a database.
abbrev in_scope : List Part → Text → Text → Bool
in_scope parts server database =
    any
      (λ part. elim part.scope [
        | whole_server ↦ text_eq (server_key part.server) server
        | whole_database ↦
            text_eq (server_key part.server) server && text_eq (lower part.database) database
        | some_tables ↦ false
      ])
      parts

abbrev was_listed : List Status → Text → Text → Bool
was_listed statuses server database =
    any
      (λ s.
        s.was_read && (text_eq (server_key s.server) server && text_eq (lower s.database) database))
      statuses

-- What is said of a table the source no longer has.
abbrev vanished_name : JobRow → Text
vanished_name row =
    control_server row
    ++ codes "/"
    ++ row.database
    ++ codes "."
    ++ row.schema
    ++ codes "."
    ++ row.table

unfoldable pub vanished_rows : List Part → List Row → List Status → List JobRow → List JobRow
unfolding control_server table_key
vanished_rows parts found statuses job_rows =
    filter_by
      (λ row.
        in_scope parts (control_server row) (lower row.database)
        && was_listed statuses (control_server row) (lower row.database)
        && not (mem_key (job_key row) (map row_key found)))
      job_rows

abbrev name_set : List JobRow → List Text
name_set [] = []
name_set (row ∷ rows) = add_text (vanished_name row) (name_set rows)

pub record Wanted : Type 0 where
  pub add : List Row
  pub new_databases : List Text
  pub vanished : List Text
  pub errors : List Text

unfoldable pub wanted : List Part → List Row → List Status → List JobRow → List Key → Wanted
unfolding from_parts vanished_rows known_of
wanted parts found statuses job_rows excluded =
    let (add, names) = from_parts (known_of job_rows excluded) parts found ([], []) in
    record {
      add = sort_by (λ a b. key_lt (row_key a) (row_key b)) add;
      new_databases = names;
      vanished = name_set (vanished_rows parts found statuses job_rows);
      errors =
          map (λ s. s.server ++ codes "/" ++ s.database)
            (filter_by
              (λ s. not s.was_read && in_scope parts (server_key s.server) (lower s.database))
              statuses);
    }
