-- ===== src/Planner/Parts.antt =====
-- planner.py: a plan's start position, the parts of a cycle's share, and the detection groups' outputs together.
use lakefed_ingest.Prelude.{
  ℕ, ◌+◌, Option, none, some, Bool, not, ◌||◌, List, [], ◌∷◌, ◌++◌, map, Text, codes, text_eq,
  text_mem, add_text, or_text, is_truthy, strip, if◌then◌else◌, filter_by, length, Result, ok,
  ◌>>=◌,
}
use lakefed_ingest.Control.{ControlRow, Checkpoint, Json, Problem, strategy_of, strategy_name}
use lakefed_ingest.Control.Positions.{ct_position}
use lakefed_ingest.Planner.Plans.{Plan, Route, cursor, full, cursor_seed}
use lakefed_ingest.Planner.Detect.{Output, UnchangedRow, Failure}
use lakefed_ingest.Planner.Stamps.{DatabaseKey, key_mem, sorted_keys}

-- A position for telemetry.
pub data StartPosition : Type 0 where
  no_position : StartPosition
  cursor_value : Json → StartPosition
  version : ℕ → StartPosition

abbrev version_from : Option Checkpoint → Result Problem StartPosition
version_from none = ok (version 0)
version_from (some cp) =
    if text_eq (strategy_of cp) (codes "ct")
    then (ct_position cp >>= λ v. ok (version v))
    else ok no_position

abbrev start_of : Route → Option Checkpoint → Result Problem StartPosition
start_of (cursor position) cp = ok (cursor_value position.value)
start_of full cp = ok no_position
start_of cursor_seed cp = ok no_position
start_of _ cp = version_from cp

unfoldable pub position_from : Plan → Result Problem StartPosition
position_from p = start_of p.route p.cp

unfoldable pub locked_run_status : Option Text → Text
locked_run_status work_id =
    if is_truthy (some (strip (or_text work_id []))) then codes "failed" else codes "skipped"

-- `sink_checked_configs`
unfoldable pub sink_checked_configs : List ControlRow → List ControlRow
sink_checked_configs configs =
    filter_by
      (λ c. text_eq (strategy_name c) (codes "ct") || text_eq (strategy_name c) (codes "cursor"))
      configs

-- The databases whose lock keys are held: `keys` is the dict of `work_database_keys`.
unfoldable pub held_databases : List (Text × DatabaseKey) → List Text → List DatabaseKey
held_databases [] held = []
held_databases ((key, d) ∷ keys) held =
    let later = held_databases keys held in if text_mem key held then d ∷ later else later

unfoldable pub work_after_locks :
    List DatabaseKey → List (Text × DatabaseKey) → List Text → List DatabaseKey × List DatabaseKey
unfolding held_databases key_mem sorted_keys
work_after_locks work keys held =
    let kept = held_databases keys held in
    (
      filter_by (λ d. key_mem d kept) work,
      sorted_keys (filter_by (λ d. not (key_mem d kept)) (map (λ e. e.1) keys)),
    )

-- `cycle_parts`: the collections of a work list, sorted.
unfoldable pub cycle_parts : List (Text × DatabaseKey) → List Text
unfolding add_text
cycle_parts [] = []
cycle_parts ((collection, d) ∷ work) = add_text collection (cycle_parts work)

-- One part's own answer.
pub record Answer : Type 0 where
  pub status : Option Text
  pub total : Option ℕ
  pub good : Option ℕ
  pub run_id : Option ℕ

pub record CycleSummary : Type 0 where
  pub parts : ℕ
  pub failed : List Text
  pub skipped : List Text
  pub tables : ℕ
  pub good : ℕ
  pub run_ids : List (Text × Option ℕ)

abbrev or_zero : Option ℕ → ℕ
or_zero none = 0
or_zero (some n) = n

abbrev status_in : List Text → Text × Answer → Bool
status_in statuses part = text_mem (or_text ((part.1).status) (codes "completed")) statuses

unfoldable pub sorted_names : List (Text × Answer) → List Text
unfolding add_text
sorted_names [] = []
sorted_names ((name, answer) ∷ parts) = add_text name (sorted_names parts)

unfoldable pub sum_over : (Answer → Option ℕ) → List (Text × Answer) → ℕ
sum_over f [] = 0
sum_over f ((name, answer) ∷ parts) = or_zero (f answer) + sum_over f parts

-- `cycle_summary`, of a dict whose keys are distinct.
unfoldable pub cycle_summary : List (Text × Answer) → CycleSummary
unfolding sorted_names sum_over
cycle_summary parts = record {
  parts = length parts;
  failed = sorted_names (filter_by (status_in (codes "failed" ∷ [])) parts);
  skipped =
      sorted_names (filter_by (status_in (codes "skipped" ∷ codes "migration_waiting" ∷ [])) parts);
  tables = sum_over (λ a. a.total) parts;
  good = sum_over (λ a. a.good) parts;
  run_ids = map (λ e. (e.0, (e.1).run_id)) parts;
}

-- A database's line among `group_versions`.
pub record GroupVersion : Type 0 where
  pub cur : Option ℕ
  pub tables : ℕ
  pub fast_exit : Bool

pub record Merged : Type 0 where
  pub plans : List Plan
  pub unchanged : List UnchangedRow
  pub failed : List Failure
  pub queries : ℕ
  pub fast_exits : ℕ
  pub fallback_tables : ℕ
  pub failed_databases : ℕ
  pub group_versions : List GroupVersion

abbrev one_if_any : List Failure → ℕ
one_if_any [] = 0
one_if_any (f ∷ fs) = 1

-- `merge_group_results`: what a group adds stands before what the later groups add. The database's name in
-- `group_versions` is left out.
unfoldable pub merge_group_results : List Output → Merged
merge_group_results [] = record {
  plans = [];
  unchanged = [];
  failed = [];
  queries = 0;
  fast_exits = 0;
  fallback_tables = 0;
  failed_databases = 0;
  group_versions = [];
}
merge_group_results (g ∷ gs) =
    let later = merge_group_results gs in
    record {
      plans = g.plans ++ later.plans;
      unchanged = g.unchanged ++ later.unchanged;
      failed = g.failed ++ later.failed;
      queries = g.queries + later.queries;
      fast_exits = (if g.fast_exit then 1 else 0) + later.fast_exits;
      fallback_tables = g.fallbacks + later.fallback_tables;
      failed_databases = one_if_any g.failed + later.failed_databases;
      group_versions =
          record {
            cur = g.cur;
            tables = length g.unchanged + length g.plans + length g.failed;
            fast_exit = g.fast_exit;
          }
          ∷ later.group_versions;
    }
