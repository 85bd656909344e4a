-- ===== src/Rediscovery/Adds.antt =====
-- rediscovery.wanted: the tables that are added to a job.
use lakefed_ingest.Prelude.{
  ℕ, Bool, true, false, not, ◌&&◌, ◌||◌, List, [], ◌∷◌, Text, lower, text_eq, text_eq_iff, or_text,
  if◌then◌else◌, any, tally, tally-append, tally-sort_by, ltb, ◌≡◌, ◌∙◌, refl, sym, ap, arith,
  Bool-cases, inl, inr,
}
use lakefed_ingest.Rediscovery.{
  Row, JobRow, Part, Status, from_scope, Scope, whole_server, whole_database, some_tables, Key,
  Known, known_of, key_eq, row_key, server_key, mem_key, mem_database, is_in, set_default,
  from_server, from_database, from_row, from_part, from_parts, wanted,
}

-- Whether a part of that scope takes a table in.
abbrev pub scope_takes : Scope → Known → Part → Row → Bool
scope_takes whole_server known part row =
    text_eq (server_key row.server) (server_key part.server)
    && (is_in (lower (or_text part.name_filter [])) (lower row.database)
        && not (mem_database (server_key part.server) (lower row.database) known.have_databases))
scope_takes whole_database known part row =
    text_eq (server_key row.server) (server_key part.server)
    && text_eq (lower row.database) (lower part.database)
scope_takes some_tables known part row = false

unfoldable pub takes_in : Known → Part → Row → Bool
takes_in known part row = scope_takes part.scope known part row

-- Neither the job's nor one it removed.
abbrev pub is_new : Known → Key → Bool
is_new known k = not (mem_key k known.have_tables) && not (mem_key k known.excluded)

abbrev one : Bool → ℕ
one b = if b then 1 else 0

-- How many of the rows have the key.
abbrev pub rows_of : Key → List Row → ℕ
rows_of k rows = tally (λ r. key_eq (row_key r) k) rows

key_eq_path : (a b : Key) → key_eq a b ≡ true → a ≡ b
key_eq_path a b h =
    let s : a.server ≡ b.server = ground (arith, h, text_eq_iff a.server b.server) in
    let d : a.database ≡ b.database = ground (arith, h, text_eq_iff a.database b.database) in
    let c : a.schema ≡ b.schema = ground (arith, h, text_eq_iff a.schema b.schema) in
    let t : a.table ≡ b.table = ground (arith, h, text_eq_iff a.table b.table) in
    λ i. record { server = s i; database = d i; schema = c i; table = t i }

any-rows_of :
    (k : Key) (rows : List Row) → any (λ r. key_eq (row_key r) k) rows ≡ ltb 0 (rows_of k rows)
any-rows_of k [] = ground arith
any-rows_of k (r ∷ rows) = ground (arith, any-rows_of k rows)

set_default-rows_of :
    (k : Key) (row : Row) (add : List Row) (b : Bool)
    → rows_of k add ≡ one b
    → rows_of k (set_default row add) ≡ one (b || key_eq (row_key row) k)
unfolding set_default
set_default-rows_of k row add b h = elim (Bool-cases (key_eq (row_key row) k)) [
  | inl same ↦ ground (
    arith,
    h,
    same,
    any-rows_of k add,
    ap (λ (j : Key). any (λ r. key_eq (row_key r) j) add) (key_eq_path (row_key row) k same),
    tally-append (λ r. key_eq (row_key r) k) add (row ∷ []),
  )
  | inr other ↦ ground (arith, h, other, tally-append (λ r. key_eq (row_key r) k) add (row ∷ []))
]

-- A table that is taken in and is new.
abbrev its : Known → Part → Row → Key → Bool
its known part row k = key_eq (row_key row) k && (takes_in known part row && is_new known k)

new_of_key :
    (known : Known) (row : Row) (k : Key)
    → (key_eq (row_key row) k && is_new known k)
      ≡ (key_eq (row_key row) k && is_new known (row_key row))
new_of_key known row k = elim (Bool-cases (key_eq (row_key row) k)) [
  | inl same ↦
      ap (λ (j : Key). key_eq (row_key row) k && is_new known j)
        (sym (key_eq_path (row_key row) k same))
  | inr other ↦ ground (arith, other)
]

from_scope-rows_of :
    (scope : Scope) (known : Known) (part : Part) (k : Key) (row : Row) (add : List Row)
    (names : List Text) (b : Bool)
    → rows_of k add ≡ one b
    → rows_of k ((from_scope scope known part row (add, names)).0)
      ≡ one (b || (key_eq (row_key row) k && (scope_takes scope known part row && is_new known k)))
unfolding from_scope from_server from_database
from_scope-rows_of whole_server known part k row add names b h =
    ground (arith, h, set_default-rows_of k row add b h, new_of_key known row k)
from_scope-rows_of whole_database known part k row add names b h =
    ground (arith, h, set_default-rows_of k row add b h, new_of_key known row k)
from_scope-rows_of some_tables known part k row add names b h = ground (arith, h)

from_row-rows_of :
    (known : Known) (part : Part) (k : Key) (row : Row) (found : List Row × List Text) (b : Bool)
    → rows_of k (found.0) ≡ one b
    → rows_of k ((from_row known part row found).0) ≡ one (b || its known part row k)
unfolding from_row takes_in
from_row-rows_of known part k row (add, names) b h =
    from_scope-rows_of part.scope known part k row add names b h

from_part-rows_of :
    (known : Known) (part : Part) (k : Key) (rows : List Row) (found : List Row × List Text)
    (b : Bool)
    → rows_of k (found.0) ≡ one b
    → rows_of k ((from_part known part rows found).0)
      ≡ one (b || any (λ row. its known part row k) rows)
unfolding from_part
from_part-rows_of known part k [] found b h = ground (arith, h)
from_part-rows_of known part k (row ∷ rows) found b h =
    from_part-rows_of known part k rows (from_row known part row found) (b || its known part row k)
      (from_row-rows_of known part k row found b h)
    ∙ ground arith

from_parts-rows_of :
    (known : Known) (k : Key) (parts : List Part) (rows : List Row) (found : List Row × List Text)
    (b : Bool)
    → rows_of k (found.0) ≡ one b
    → rows_of k ((from_parts known parts rows found).0)
      ≡ one (b || any (λ part. any (λ row. its known part row k) rows) parts)
unfolding from_parts
from_parts-rows_of known k [] rows found b h = ground (arith, h)
from_parts-rows_of known k (part ∷ parts) rows found b h =
    from_parts-rows_of known k parts rows (from_part known part rows found)
      (b || any (λ row. its known part row k) rows) (from_part-rows_of known part k rows found b h)
    ∙ ground arith

-- The tables a re-discovery adds are, once each and under one key, the found tables that a part of the job's
-- selection takes in, that the job does not have, and that it did not remove.
pub wanted-rows_of :
    (parts : List Part) (found : List Row) (statuses : List Status) (job_rows : List JobRow)
    (excluded : List Key) (k : Key)
    → let known = known_of job_rows excluded in
      rows_of k (wanted parts found statuses job_rows excluded).add ≡ (
        if any
          (λ part.
            any
              (λ row. key_eq (row_key row) k && (takes_in known part row && is_new known k))
              found)
          parts
        then 1
        else 0)
unfolding wanted
wanted-rows_of parts found statuses job_rows excluded k =
    tally-sort_by (λ r. key_eq (row_key r) k) _ _
    ∙ from_parts-rows_of (known_of job_rows excluded) k parts found ([], []) false refl
