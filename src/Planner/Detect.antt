-- ===== src/Planner/Detect.antt =====
-- planner.detect_group: change detection of one source database, and ct_engine's classification.
pub mod Accounts
pub mod Total
pub mod Changes
pub mod Returned
use lakefed_ingest.Prelude.{
  ℕ, suc, ◌+◌, Option, none, some, Bool, true, false, not, ◌||◌, List, [], ◌∷◌, ◌++◌, map, Text,
  lower, text_eq, Result, ok, err, ◌>>=◌, if◌then◌else◌, leb, ltb, ◌==◌, any, all, filter_by,
}
use lakefed_ingest.Control.{ControlRow, Checkpoint, Problem, no_members}
use lakefed_ingest.Control.Identity.{Identity, identity_values}
use lakefed_ingest.Control.Positions.{ct_position}
use lakefed_ingest.Planner.Plans.{
  Reason, ct_version_reset, ct_disabled, retention_miss, ct_reenabled, Route, retention_reseed,
  fallback, merge, Plan, plan,
}
use lakefed_ingest.Planner.Rows.{as_problem}

-- A table to detect. `position` is what `ct_position(cp)` gives of the checkpoint, and `begin` the CT
-- begin version that the status query reported, once it has.
pub record Member : Type 0 where
  pub cfg : ControlRow
  pub cp : Checkpoint
  pub position : ℕ
  pub begin : Option ℕ

-- What an injected query raised.
abbrev pub Raised : Type 0
Raised = Text

-- The tables of the database with Change Tracking on: (schema, table), lower-cased, to the min valid
-- version and the begin version.
abbrev pub Status : Type 0
Status = Text → Text → Option (Option ℕ × Option ℕ)

pub record Item : Type 0 where
  pub control_id : ℕ
  pub schema : Text
  pub table : Text
  pub checkpoint : ℕ

-- `(results, failed_ids, queries)`: the min valid version and whether there is a change.
pub record Answer : Type 0 where
  pub results : ℕ → Option (Option ℕ × Bool)
  pub failed_ids : List ℕ
  pub asked : ℕ

-- The source queries that the notebook injects.
pub record Queries : Type 0 where
  pub database_state : Option (ControlRow → Result Raised (Option ℕ × Status))
  pub current_version : ControlRow → Result Raised (Option ℕ)
  pub ct_status : Option (ControlRow → Result Raised Status)
  pub detect : ControlRow → List Item → Result Raised Answer

pub data DetectError : Type 0 where
  version_failed status_failed detection_failed : Raised → DetectError
  ct_not_enabled : DetectError

-- A row for the bulk advance.
pub record UnchangedRow : Type 0 where
  pub control_id : ℕ
  pub cur : ℕ
  pub select_list : Option Text
  pub begin : Option ℕ
  pub identity : Identity

pub record Failure : Type 0 where
  pub cfg : ControlRow
  pub cp : Checkpoint
  pub error : DetectError

pub record Output : Type 0 where
  pub cur : Option ℕ
  pub plans : List Plan
  pub unchanged : List UnchangedRow
  pub failed : List Failure
  pub queries : ℕ
  pub fast_exit : Bool
  pub fallbacks : ℕ

abbrev pub empty_output : Output
empty_output = record {
  cur = none;
  plans = [];
  unchanged = [];
  failed = [];
  queries = 0;
  fast_exit = false;
  fallbacks = 0;
}

abbrev pub failures : DetectError → List Member → List Failure
failures e = map (λ m. record { cfg = m.cfg; cp = m.cp; error = e })

-- `ct_engine.classify`
pub data Kind : Type 0 where
  reseed changed unchanged : Kind

unfoldable pub classify : ℕ → Option ℕ → Bool → Kind
classify checkpoint_version none change = reseed
classify checkpoint_version (some min_valid) change =
    if ltb checkpoint_version min_valid then reseed else (if change then changed else unchanged)

-- `ct_engine.all_current`
unfoldable pub all_current : List Member → ℕ → Bool
all_current members cur = all (λ m. leb cur m.position) members

-- The positions of the members, which the first comparison with `cur` decodes in order.
unfoldable pub located : List (ControlRow × Checkpoint) → Result Problem (List Member)
located [] = ok []
located ((cfg, cp) ∷ rest) = do
  position ← ct_position cp
  later ← located rest
  ok (record { cfg = cfg; cp = cp; position = position; begin = none } ∷ later)

abbrev reseeded : Option Reason → Member → Plan
reseeded reason m = plan m.cfg (retention_reseed reason) (some m.cp)

-- Members that are ahead of the database, and the rest (told apart by control id).
unfoldable pub ahead : ℕ → List Member → List Member
ahead cur = filter_by (λ m. ltb cur m.position)

unfoldable pub not_reset : List Member → List Member → List Member
not_reset reset = filter_by (λ m. not (any (λ r. r.cfg.id == m.cfg.id) reset))

-- The check of one member against the status of its table: a plan, or the member to go on with.
pub data Checked : Type 0 where
  lost : Reason → Checked
  goes_on : Option ℕ → Checked

abbrev version_differs : Option ℕ → Option ℕ → Bool
version_differs none bv = false
version_differs (some recorded) none = false
version_differs (some recorded) (some bv) = not (bv == recorded)

unfoldable pub check_entry : Member → Option (Option ℕ × Option ℕ) → Checked
check_entry m none = lost ct_disabled
check_entry m (some (none, bv)) = lost retention_miss
check_entry m (some (some mv, bv)) =
    if ltb m.position mv
    then lost retention_miss
    else (if version_differs m.cp.ct_begin_version bv then lost ct_reenabled else goes_on bv)

unfoldable pub check_status : Status → Member → Checked
check_status status m = check_entry m (status (lower m.cfg.src_schema) (lower m.cfg.src_table))

unfoldable pub lost_plans : Status → List Member → List Plan
lost_plans status [] = []
lost_plans status (m ∷ ms) = elim (check_status status m) [
  | lost reason ↦ reseeded (some reason) m ∷ lost_plans status ms
  | goes_on bv ↦ lost_plans status ms
]

unfoldable pub kept_members : Status → List Member → List Member
kept_members status [] = []
kept_members status (m ∷ ms) = elim (check_status status m) [
  | lost reason ↦ kept_members status ms
  | goes_on bv ↦ record m { begin = bv } ∷ kept_members status ms
]

-- `cp.get("select_list") not in (None, c["select_list"])`
abbrev recorded_differs : Option Text → Text → Bool
recorded_differs none now = false
recorded_differs (some recorded) now = not (text_eq recorded now)

unfoldable pub unchanged_row : List ℕ → ℕ → Member → Result Problem UnchangedRow
unchanged_row record_sl cur m = do
  identity ← as_problem (identity_values m.cfg)
  let cid = m.cfg.id
  let records = any (λ i. i == cid) record_sl || recorded_differs m.cp.select_list m.cfg.select_list
  ok (record {
    control_id = cid;
    cur = cur;
    select_list = if records then some m.cfg.select_list else none;
    begin = m.begin;
    identity = identity;
  })

unfoldable pub unchanged_rows : List ℕ → ℕ → List Member → Result Problem (List UnchangedRow)
unchanged_rows record_sl cur [] = ok []
unchanged_rows record_sl cur (m ∷ ms) = do
  row ← unchanged_row record_sl cur m
  later ← unchanged_rows record_sl cur ms
  ok (row ∷ later)

-- What the loop over the members makes of one: a plan, or a row to advance.
pub data Sorted : Type 0 where
  falls_back to_reseed to_merge stays : Sorted

unfoldable pub sort_entry : ℕ → Option (Option ℕ × Bool) → Sorted
unfolding classify
sort_entry position none = falls_back
sort_entry position (some (mv, change)) = elim (classify position mv change) [
  | reseed ↦ to_reseed
  | changed ↦ to_merge
  | unchanged ↦ stays
]

-- A table that there is no answer for is never classified.
unfoldable pub sort_member : Answer → Member → Sorted
unfolding sort_entry
sort_member answer m =
    if any (λ i. i == m.cfg.id) answer.failed_ids
    then falls_back
    else sort_entry m.position (answer.results m.cfg.id)

-- What one round of the loop adds in front of what the later rounds add.
unfoldable pub placed : List ℕ → ℕ → Member → Sorted → Result Problem (Output → Output)
placed record_sl cur m falls_back = ok (λ out. record out {
  plans = plan m.cfg fallback (some m.cp) ∷ out.plans;
  fallbacks = suc out.fallbacks;
})
placed record_sl cur m to_reseed = ok (λ out. record out { plans = reseeded none m ∷ out.plans })
placed record_sl cur m to_merge =
    ok (λ out. record out { plans = plan m.cfg (merge cur m.begin) (some m.cp) ∷ out.plans })
placed record_sl cur m stays = do
  row ← unchanged_row record_sl cur m
  ok (λ out. record out { unchanged = row ∷ out.unchanged })

unfoldable pub place_member : List ℕ → ℕ → Answer → Member → Result Problem (Output → Output)
unfolding placed
place_member record_sl cur answer m = placed record_sl cur m (sort_member answer m)

unfoldable pub sorted_members : List ℕ → ℕ → Answer → List Member → Result Problem Output
sorted_members record_sl cur answer [] = ok empty_output
sorted_members record_sl cur answer (m ∷ ms) = do
  place ← place_member record_sl cur answer m
  later ← sorted_members record_sl cur answer ms
  ok (place later)

abbrev items_of : List Member → List Item
items_of = map (λ m. record {
  control_id = m.cfg.id;
  schema = m.cfg.src_schema;
  table = m.cfg.src_table;
  checkpoint = m.position;
})

-- The fast exit: every member is current.
current_output : List ℕ → ℕ → List Member → Output → Result Problem Output
current_output record_sl cur ms out = do
  rows ← unchanged_rows record_sl cur ms
  ok (record out { fast_exit = true; unchanged = rows })

detected_output : List ℕ → ℕ → List Member → Output → Result Raised Answer → Result Problem Output
detected_output record_sl cur ms out (err raised) =
    ok (record out { failed = failures (detection_failed raised) ms })
detected_output record_sl cur ms out (ok answer) = do
  done ← sorted_members record_sl cur answer ms
  ok (record out {
    plans = out.plans ++ done.plans;
    unchanged = done.unchanged;
    queries = out.queries + answer.asked;
    fallbacks = done.fallbacks;
  })

-- From the fast exit on. `out` holds the plans made before, and `cur`.
detect_members : List ℕ → Queries → ControlRow → ℕ → List Member → Output → Result Problem Output
unfolding current_output detected_output
detect_members record_sl q cfg0 cur [] out = ok out
detect_members record_sl q cfg0 cur (m ∷ ms) out =
    if all_current (m ∷ ms) cur
    then current_output record_sl cur (m ∷ ms) out
    else detected_output record_sl cur (m ∷ ms) out (q.detect cfg0 (items_of (m ∷ ms)))

-- The status of the tables: the one that came with the version, or a query of its own.
with_status :
    List ℕ → Queries → ControlRow → ℕ → Status → List Member → Output → Result Problem Output
unfolding detect_members
with_status record_sl q cfg0 cur status members out =
    detect_members record_sl q cfg0 cur (kept_members status members)
      (record out { plans = out.plans ++ lost_plans status members })

-- `ct_status(cfg0)`, where the caller gave one.
abbrev ask_status : Queries → ControlRow → Option (Result Raised Status)
ask_status q cfg0 = elim q.ct_status [ none ↦ none | some ask ↦ some (ask cfg0) ]

with_reply :
    List ℕ
    → Queries
    → ControlRow
    → ℕ
    → Option (Result Raised Status)
    → List Member
    → Output
    → Result Problem Output
unfolding with_status
with_reply record_sl q cfg0 cur none members out = detect_members record_sl q cfg0 cur members out
with_reply record_sl q cfg0 cur (some (err raised)) members out =
    ok (record out { failed = failures (status_failed raised) members })
with_reply record_sl q cfg0 cur (some (ok status)) members out =
    with_status record_sl q cfg0 cur status members (record out { queries = suc out.queries })

check_tables :
    List ℕ → Queries → ControlRow → ℕ → Option Status → List Member → Output → Result Problem Output
unfolding with_reply
check_tables record_sl q cfg0 cur (some status) members out =
    with_status record_sl q cfg0 cur status members out
check_tables record_sl q cfg0 cur none members out =
    with_reply record_sl q cfg0 cur (ask_status q cfg0) members out

-- Nothing more is asked where no member is left.
check_rest :
    List ℕ → Queries → ControlRow → ℕ → Option Status → List Member → Output → Result Problem Output
unfolding check_tables
check_rest record_sl q cfg0 cur status [] out = ok out
check_rest record_sl q cfg0 cur status (m ∷ ms) out =
    check_tables record_sl q cfg0 cur status (m ∷ ms) out

-- The members that are ahead of the database are planned; the rest go on, if there are any.
check_reset :
    List ℕ → Queries → ControlRow → ℕ → Option Status → List Member → Output → Result Problem Output
unfolding check_rest
check_reset record_sl q cfg0 cur status members out =
    let reset = ahead cur members in
    let rest = not_reset reset members in
    let planned = record out { plans = map (reseeded (some ct_version_reset)) reset } in
    check_rest record_sl q cfg0 cur status rest planned

abbrev pub ask_version : Queries → ControlRow → Result Raised (Option ℕ × Option Status)
ask_version q cfg0 = elim q.database_state [
  | some ask ↦ elim (ask cfg0) [ err e ↦ err e | ok (cur, status) ↦ ok (cur, some status) ]
  | none ↦ elim (q.current_version cfg0) [ err e ↦ err e | ok cur ↦ ok (cur, none) ]
]

abbrev all_failed : DetectError → List (ControlRow × Checkpoint) → List Failure
all_failed e = map (λ m. record { cfg = m.0; cp = m.1; error = e })

abbrev none_yet : ℕ → Output
none_yet cur = record empty_output { cur = some cur; queries = 1 }

-- What `detect_group` does with the answer about the database.
with_version :
    List ℕ
    → Queries
    → ControlRow
    → List (ControlRow × Checkpoint)
    → Result Raised (Option ℕ × Option Status)
    → Result Problem Output
unfolding check_reset
with_version record_sl q cfg0 ms (err raised) =
    ok (record empty_output { failed = all_failed (version_failed raised) ms })
with_version record_sl q cfg0 ms (ok (none, status)) =
    ok (record empty_output { failed = all_failed ct_not_enabled ms; queries = 1 })
with_version record_sl q cfg0 ms (ok (some cur, status)) = do
  members ← located ms
  check_reset record_sl q cfg0 cur status members (none_yet cur)

unfoldable pub detect_group :
    List ℕ → Queries → List (ControlRow × Checkpoint) → Result Problem Output
unfolding with_version
detect_group record_sl q [] = err no_members
detect_group record_sl q (m ∷ ms) = with_version record_sl q m.0 (m ∷ ms) (ask_version q m.0)
