-- ===== src/Planner/Stamps/Writes.antt =====
-- planner.unchanged_writes: which unchanged rows are written one by one, and which databases get a stamp.
use lakefed_ingest.Prelude.{
  ℕ, ◌+◌, Option, none, some, Bool, false, not, ◌&&◌, List, [], ◌∷◌, ◌++◌, map, Result, ok, err,
  ◌>>=◌, if◌then◌else◌, leb, ◌==◌, any,
}
use lakefed_ingest.Control.{ControlRow, Checkpoint, Problem, no_members}
use lakefed_ingest.Planner.Detect.{UnchangedRow, Output}
use lakefed_ingest.Planner.Stamps.{
  Stamp, DatabaseKey, database_key, key_eq, key_mem, sorted_keys, refresh_only, is_recent,
  bulk_rows_to_write, Checkpoints,
}

-- `key_of`: the database of a group's row; of two rows with one id the later.
unfoldable pub key_of : List (ControlRow × Checkpoint) → ℕ → Option DatabaseKey
unfolding database_key
key_of [] cid = none
key_of ((cfg, cp) ∷ ms) cid = elim (key_of ms cid) [
  | some k ↦ some k
  | none ↦ if cfg.id == cid then some (database_key cfg) else none
]

abbrev pub keys_of : List (ControlRow × Checkpoint) → List DatabaseKey
keys_of members = map (λ m. database_key (m.0)) members

-- A stamp to write: the database, the version, and its tables.
pub record DatabaseStamp : Type 0 where
  pub key : DatabaseKey
  pub version : ℕ
  pub tables : ℕ

abbrev pub Stamps : Type 0
Stamps = DatabaseKey → Option Stamp

-- `_stamp_is_fresh`
unfoldable pub stamp_is_fresh : Option Stamp → (cur interval now : ℕ) → Bool
stamp_is_fresh none cur interval now = false
stamp_is_fresh (some s) cur interval now =
    not (interval == 0) && leb s.version cur && is_recent interval now s.checked_at

abbrev stamp_for : Stamps → Option DatabaseKey → Option Stamp
stamp_for stamps none = none
stamp_for stamps (some k) = stamps k

-- The loop over a whole database's unchanged rows: those to write, and the databases covered.
-- A row that no member has is a KeyError there.
unfoldable pub cover :
    List (ControlRow × Checkpoint)
    → Checkpoints
    → List UnchangedRow
    → Result Problem (List UnchangedRow × List DatabaseKey)
unfolding refresh_only key_of
cover members checkpoints [] = ok ([], [])
cover members checkpoints (row ∷ rows) = do
  refresh ← refresh_only row (checkpoints row.control_id)
  (written, covered) ← cover members checkpoints rows
  if refresh
      then elim (key_of members row.control_id) [
        | none ↦ err no_members
        | some k ↦ ok (written, k ∷ covered)
      ]
      else ok (row ∷ written, covered)

abbrev tables_on : DatabaseKey → List DatabaseKey → ℕ
tables_on k [] = 0
tables_on k (l ∷ ls) = (if key_eq k l then 1 else 0) + tables_on k ls

unfoldable pub stamps_for :
    Stamps → List DatabaseKey → (cur interval now : ℕ) → List DatabaseKey → List DatabaseStamp
unfolding stamp_is_fresh
stamps_for stamps keys cur interval now [] = []
stamps_for stamps keys cur interval now (k ∷ ks) =
    let later = stamps_for stamps keys cur interval now ks in
    if stamp_is_fresh (stamps k) cur interval now
    then later
    else record { key = k; version = cur; tables = tables_on k keys } ∷ later

-- Detection planned nothing and nothing failed, and no row of its databases is routed elsewhere.
unfoldable pub whole_at : List (ControlRow × Checkpoint) → List DatabaseKey → Output → Option ℕ
unfolding key_mem
whole_at members elsewhere out = elim out.plans [
  | p ∷ ps ↦ none
  | [] ↦ elim out.failed [
    | f ∷ fs ↦ none
    | [] ↦ if any (λ k. key_mem k elsewhere) (keys_of members) then none else out.cur
  ]
]

abbrev Writes : Type 0
Writes = List UnchangedRow × List DatabaseStamp

unfoldable pub group_writes :
    Checkpoints
    → Stamps
    → (interval now : ℕ) → List (ControlRow × Checkpoint)
    → Output
    → Option ℕ
    → Result Problem Writes
unfolding bulk_rows_to_write cover stamps_for sorted_keys
group_writes checkpoints stamps interval now members out none = do
  rows ←
      bulk_rows_to_write out.unchanged checkpoints (λ cid. stamp_for stamps (key_of members cid))
        interval now
  ok (rows, [])
group_writes checkpoints stamps interval now members out (some cur) = do
  (rows, covered) ← cover members checkpoints out.unchanged
  ok (rows, stamps_for stamps (keys_of members) cur interval now (sorted_keys covered))

unfoldable pub unchanged_writes :
    Checkpoints
    → Stamps
    → List DatabaseKey
    → (interval now : ℕ) → List (List (ControlRow × Checkpoint) × Output)
    → Result Problem Writes
unfolding group_writes whole_at
unchanged_writes checkpoints stamps elsewhere interval now [] = ok ([], [])
unchanged_writes checkpoints stamps elsewhere interval now ((members, out) ∷ groups) = do
  (rows, made) ←
      group_writes checkpoints stamps interval now members out (whole_at members elsewhere out)
  (later_rows, later_made) ← unchanged_writes checkpoints stamps elsewhere interval now groups
  ok (rows ++ later_rows, made ++ later_made)
