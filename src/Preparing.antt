-- ===== src/Preparing.antt =====
-- The operations app's preparing.py: a new job's record while it prepares, and the databases set aside or left out of
-- it. Times, users, reasons and progress are left out; `key` is `database_key` of a server and a database, a JSON text.
pub mod Data
pub mod Sound
pub mod Runs
use lakefed_ingest.Prelude.{
  ℕ, ◌+◌, ◌-◌, Option, none, some, Bool, true, false, not, ◌&&◌, ◌||◌, List, [], ◌∷◌, ◌++◌, map,
  Text, lower, text_eq, text_lt, text_mem, take, if◌then◌else◌, ◌==◌, filter_by, sort_by,
}
use lakefed_ingest.Preparing.Data.{
  Counts, Entry, Kind, Record, Stage, State, clash, closed, counts_of, entry_counts, has, is_clash,
  is_unreadable, needs_action, needs_you, pop, preparing, put, reading, ready_state, refreshed,
  syncing, unreadable, writing,
}

-- `LISTED`
abbrev pub listed : ℕ
listed = 200

-- The sort key of the listed entries.
abbrev pub by_name : Text × Entry → Text × Entry → Bool
by_name a b =
    text_lt (lower (a.1).server) (lower (b.1).server)
    || (text_eq (lower (a.1).server) (lower (b.1).server)
        && text_lt (lower (a.1).database) (lower (b.1).database))

unfoldable pub put_all : List (Text × Entry) → List (Text × Entry) → List (Text × Entry)
unfolding put
put_all [] d = d
put_all ((k, e) ∷ more) d = put_all more (put k e d)

abbrev pub removed_counts : Kind → Counts → Counts
removed_counts unreadable c = record c { unreadable_count = c.unreadable_count - 1 }
removed_counts clash c = record c { clash_count = c.clash_count - 1 }
removed_counts closed c = record c { closed_count = c.closed_count - 1 }

unfoldable pub asked : Record → Record
asked r = record r { asks = r.asks + 1 }

-- The stage once some of the databases were taken: the given one while the job prepares.
abbrev pub stage_if : Bool → State → Stage → Option Stage → Option Stage
stage_if taken preparing new old = if taken then some new else old
stage_if taken needs_you new old = old
stage_if taken ready_state new old = old

abbrev counted : List (Text × Entry) → Option Counts → Counts
counted d none = entry_counts d
counted d (some c) = c

-- The entries of `keys`, which are distinct, come off the list and the counts.
unfoldable pub cleared_counts : List (Text × Entry) → List Text → Counts → Counts
cleared_counts [] keys c = c
cleared_counts ((k, e) ∷ d) keys c =
    cleared_counts d keys (if text_mem k keys then removed_counts e.kind c else c)

unfoldable pub cleared : List Text → Record → Record
unfolding refreshed cleared_counts counts_of
cleared keys r = refreshed (record r {
  set_aside = filter_by (λ e. not (text_mem (e.0) keys)) r.set_aside;
  counts = some (cleared_counts r.set_aside keys (counts_of r));
})

abbrev is_named : Option (List Text) → Text → Bool
is_named none k = true
is_named (some keys) k = text_mem k keys

abbrev reset_counts : Option (List Text) → ℕ → Counts → Counts
reset_counts none reset c = record c { unreadable_count = 0 }
reset_counts (some keys) reset c = record c { unreadable_count = c.unreadable_count - reset }

abbrev pub staged : Bool → Stage → Record → Record
staged taken stage r = record r { stage = stage_if taken r.state stage r.stage }

unfoldable pub read_again : Option (List Text) → ℕ → Record → Record
unfolding asked refreshed counts_of
read_again keys reset r = staged (not (reset == 0)) reading (
    refreshed (
      asked (record r {
        set_aside =
            filter_by (λ e. not (is_unreadable (e.1).kind && is_named keys (e.0))) r.set_aside;
        counts = some (reset_counts keys reset (counts_of r));
      })))

abbrev or_old : Option (Option Text) → Option Text → Option Text
or_old none old = old
or_old (some new) old = new

-- The templates given, of the catalog, schema and table.
unfoldable pub change_targets :
    Option (Option Text) → Option (Option Text) → Option (Option Text) → Record → Record × ℕ
unfolding asked refreshed counts_of
change_targets catalog schema table r =
    let c = counts_of r in
    (
      staged (not (c.clash_count == 0)) writing (
          refreshed (
            asked (record r {
              targets = record {
                sink_catalog = or_old catalog r.targets.sink_catalog;
                sink_schema = or_old schema r.targets.sink_schema;
                sink_table = or_old table r.targets.sink_table;
              };
              set_aside = filter_by (λ e. not (is_clash (e.1).kind)) r.set_aside;
              counts = some (record c { clash_count = 0 });
            }))),
      c.clash_count,
    )

unfoldable pub restarted : Record → Record
unfolding asked refreshed
restarted r = refreshed (asked (record r { stopped = false }))

unfoldable pub stop : Record → Record
stop r = record r { stopped = true }

unfoldable pub with_turn_on : Bool → Record → Record
with_turn_on turn_on r = record r { turn_on = turn_on }

abbrev or_state : Option State → State → State
or_state none old = old
or_state (some new) old = new

abbrev or_stage : Option Stage → Option Stage → Option Stage
or_stage none old = old
or_stage (some new) old = some new

abbrev begins_writing : Option Stage → Bool
begins_writing none = false
begins_writing (some reading) = false
begins_writing (some writing) = true
begins_writing (some syncing) = true

abbrev final_stage : State → Option Stage → Option Stage
final_stage preparing s = s
final_stage needs_you s = s
final_stage ready_state s = none

unfoldable pub moved : Option State → Option Stage → Record → Record
moved state stage r =
    let now = or_stage stage r.stage in
    record r {
      state = or_state state r.state;
      stage = final_stage (or_state state r.state) now;
      writing_started = r.writing_started || begins_writing now;
    }

unfoldable pub ready : Record → Record
unfolding moved
ready r = moved (some ready_state) none r

unfoldable pub has_work : Record → Bool
has_work r = elim r.state [ preparing ↦ not r.stopped | needs_you ↦ false | ready_state ↦ false ]

module _ (key : Text → Text → Text) where
  abbrev entry_key : Entry → Text
  entry_key e = key e.server e.database

  -- The entries of one sort, less those left out: `clashes` tells which.
  unfoldable pub sorted_out :
      Bool → List Entry → List (Text × Entry) → List (Text × Entry) → List (Text × Entry)
  unfolding put
  sorted_out clashes [] left d = d
  sorted_out clashes (e ∷ es) left d = sorted_out clashes es left (
      if not (has (entry_key e) left)
        && (if clashes then is_clash e.kind else not (is_clash e.kind))
      then put (entry_key e) e d
      else d)

  -- `_kept_entries`: every clash, and the first of the others by name.
  unfoldable pub kept_entries : List Entry → List (Text × Entry) → List (Text × Entry)
  unfolding sorted_out put_all
  kept_entries entries left =
      put_all (take listed (sort_by by_name (sorted_out false entries left [])))
        (sorted_out true entries left [])

  unfoldable pub with_set_aside : List Entry → Option Counts → Record → Record
  unfolding kept_entries refreshed
  with_set_aside entries given r =
      let d = kept_entries (map (λ e. e.1) r.set_aside ++ entries) r.left_out in
      refreshed (record r { set_aside = d; counts = some (counted d given) })

  unfoldable pub found : List Entry → Counts → Record → Record
  unfolding kept_entries refreshed
  found entries given r =
      refreshed (record r { set_aside = kept_entries entries r.left_out; counts = some given })

  -- The loop of `leave_out`: the set-aside and left-out databases, the counts, and how many were taken.
  unfoldable pub leave :
      List Entry
      → List (Text × Entry)
      → List (Text × Entry)
      → Counts
      → ℕ
      → List (Text × Entry) × List (Text × Entry) × Counts × ℕ
  unfolding pop put
  leave [] aside left c taken = (aside, left, c, taken)
  leave (e ∷ es) aside left c taken = elim (has (entry_key e) left || not (needs_action e.kind)) [
    | true ↦ leave es aside left c taken
    | false ↦
        leave es (pop (entry_key e) aside) (put (entry_key e) e left) (removed_counts e.kind c)
          (taken + 1)
  ]

  unfoldable pub leave_out : List Entry → Record → Record × ℕ
  unfolding leave asked refreshed counts_of
  leave_out entries r =
      let (aside, left, c, taken) = leave entries r.set_aside r.left_out (counts_of r) 0 in
      (refreshed (asked (record r { set_aside = aside; left_out = left; counts = some c })), taken)

  -- The rows, of a server and a database each, that the job has not left out.
  unfoldable pub without_left_out : List (Text × Text) → Record → List (Text × Text)
  without_left_out rows r = filter_by (λ row. not (has (key (row.0) (row.1)) r.left_out)) rows
