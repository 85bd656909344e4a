-- ===== src/Planner/Stamps.antt =====
-- planner.py: the bookkeeping of unchanged tables, and the check stamps of whole databases. A time is in
-- seconds, and `interval` 0 is off.
pub mod Writes
pub mod Advance
pub mod Skips
use lakefed_ingest.Prelude.{
  ℕ, zero, suc, ◌+◌, Option, none, some, Bool, true, false, not, ◌&&◌, ◌||◌, List, [], ◌∷◌, ◌++◌,
  map, Text, Result, ok, err, ◌>>=◌, codes, text_eq, text_lt, or_text, if◌then◌else◌, leb, ltb,
  ◌==◌, any, filter_by,
}
use lakefed_ingest.Control.{ControlRow, Checkpoint, Problem, incremental, strategy_of}
use lakefed_ingest.Control.Identity.{database_source}
use lakefed_ingest.Control.Positions.{ct_position}
use lakefed_ingest.Planner.Detect.{UnchangedRow, Output, Member}

pub record Stamp : Type 0 where
  pub version : ℕ
  pub checked_at : Option ℕ

-- The database that a check stamp is kept for.
pub record DatabaseKey : Type 0 where
  pub source : Text
  pub database : Text

unfoldable pub database_key : ControlRow → DatabaseKey
database_key cfg = record { source = database_source cfg; database = or_text cfg.src_database [] }

abbrev pub key_eq : DatabaseKey → DatabaseKey → Bool
key_eq k l = text_eq k.source l.source && text_eq k.database l.database

abbrev pub key_lt : DatabaseKey → DatabaseKey → Bool
key_lt k l =
    text_lt k.source l.source || (text_eq k.source l.source && text_lt k.database l.database)

unfoldable pub key_mem : DatabaseKey → List DatabaseKey → Bool
key_mem k [] = false
key_mem k (l ∷ ls) = key_eq k l || key_mem k ls

-- `select_work`: the rows on the databases of a work list; the error is a list with no row left.
pub data WorkError : Type 0 where
  no_row_left : List DatabaseKey → WorkError

unfoldable pub select_work :
    List ControlRow → Option (List DatabaseKey) → Result WorkError (List ControlRow)
unfolding key_mem database_key
select_work configs none = ok configs
select_work configs (some work) = elim (filter_by (λ c. key_mem (database_key c) work) configs) [
  | [] ↦ err (no_row_left work)
  | c ∷ cs ↦ ok (c ∷ cs)
]

-- A sorted set of databases, and one more in it.
unfoldable pub add_key : DatabaseKey → List DatabaseKey → List DatabaseKey
add_key k [] = k ∷ []
add_key k (l ∷ ls) =
    let later = add_key k ls in
    if key_eq k l then l ∷ ls else (if key_lt k l then k ∷ l ∷ ls else l ∷ later)

unfoldable pub sorted_keys : List DatabaseKey → List DatabaseKey
unfolding add_key
sorted_keys [] = []
sorted_keys (k ∷ ks) = add_key k (sorted_keys ks)

unfoldable pub work_without_rows : List ControlRow → List DatabaseKey → List DatabaseKey
unfolding sorted_keys key_mem database_key
work_without_rows configs work =
    sorted_keys (filter_by (λ k. not (key_mem k (map database_key configs))) work)

abbrev pub is_ct : Checkpoint → Bool
is_ct cp = text_eq cp.phase incremental && text_eq (strategy_of cp) (codes "ct")

abbrev pub is_recorded : {A : Type 0} → Option A → Bool
is_recorded none = false
is_recorded (some a) = true

-- `stamp_vouches`, for a stamp that there is.
unfoldable pub stamp_vouches : Option Checkpoint → Option Stamp → Result Problem Bool
stamp_vouches none stamp = ok false
stamp_vouches (some cp) none = ok false
stamp_vouches (some cp) (some stamp) =
    if not (is_recorded cp.position) || not (is_ct cp)
    then ok false
    else do position ← ct_position cp; ok (leb stamp.version position)

abbrev pub later_of : Option ℕ → Option ℕ → Option ℕ
later_of own none = own
later_of none (some t) = some t
later_of (some s) (some t) = some (if leb s t then t else s)

abbrev pub own_success : Option Checkpoint → Option ℕ
own_success none = none
own_success (some cp) = cp.last_success_at

abbrev pub stamp_time : Bool → Option Stamp → Option ℕ
stamp_time true (some stamp) = stamp.checked_at
stamp_time _ _ = none

unfoldable pub last_success : Option Checkpoint → Option Stamp → Result Problem (Option ℕ)
unfolding stamp_vouches
last_success cp stamp = do
  vouches ← stamp_vouches cp stamp
  ok (later_of (own_success cp) (stamp_time vouches stamp))

-- A missing checkpoint reads as `{}`: its position is 0, and its status is not ok.
unfoldable pub refresh_only : UnchangedRow → Option Checkpoint → Result Problem Bool
refresh_only row none = ok false
refresh_only row (some cp) = do
  position ← ct_position cp
  ok (
      leb row.cur position
      && not (is_recorded row.select_list)
      && text_eq cp.status (codes "ok")
      && (not (is_recorded row.begin) || is_recorded cp.ct_begin_version)
      && is_recorded cp.source_identity
      && is_recorded cp.sink_identity)

-- `(now - t).total_seconds() < interval_s`
abbrev pub is_recent : ℕ → ℕ → Option ℕ → Bool
is_recent interval now none = false
is_recent interval now (some t) = ltb now (t + interval)

abbrev pub Checkpoints : Type 0
Checkpoints = ℕ → Option Checkpoint

-- One row of the loop: whether it is left out.
unfoldable pub is_skipped :
    Checkpoints → (ℕ → Option Stamp) → ℕ → ℕ → UnchangedRow → Result Problem Bool
unfolding refresh_only last_success
is_skipped checkpoints stamp_of interval now row = do
  let cp = checkpoints row.control_id
  success ← last_success cp (stamp_of row.control_id)
  refresh ← refresh_only row cp
  ok (refresh && is_recent interval now success)

unfoldable pub rows_to_write :
    Checkpoints
    → (ℕ → Option Stamp)
    → ℕ
    → ℕ
    → List UnchangedRow
    → Result Problem (List UnchangedRow)
unfolding is_skipped
rows_to_write checkpoints stamp_of interval now [] = ok []
rows_to_write checkpoints stamp_of interval now (row ∷ rows) = do
  skipped ← is_skipped checkpoints stamp_of interval now row
  later ← rows_to_write checkpoints stamp_of interval now rows
  ok (if skipped then later else row ∷ later)

unfoldable pub bulk_rows_to_write :
    List UnchangedRow
    → Checkpoints
    → (ℕ → Option Stamp)
    → ℕ
    → ℕ
    → Result Problem (List UnchangedRow)
unfolding rows_to_write
bulk_rows_to_write unchanged checkpoints stamp_of interval now =
    if interval == 0
    then ok unchanged
    else rows_to_write checkpoints stamp_of interval now unchanged
