-- ===== src/Check.antt =====
-- initial_check.check_collection: which of a collection's databases need an ingest. `detect_one` and `map_fn`
-- come from the caller: `detect` stands for the detection of one group.
pub mod Groups
pub mod Covers
use lakefed_ingest.Prelude.{
  ℕ, zero, suc, ◌+◌, Option, none, some, Bool, true, false, not, ◌&&◌, ◌||◌, List, [], ◌∷◌, ◌++◌,
  map, Text, Result, ok, err, ◌>>=◌, text_mem, or_text, if◌then◌else◌, leb, ltb, any, filter_by,
  length,
}
use lakefed_ingest.Control.{ControlRow, Checkpoint, Problem}
use lakefed_ingest.Planner.Plans.{Plan, Route, seed, cursor_seed}
use lakefed_ingest.Planner.Route.{Settings, Routing, route_tables}
use lakefed_ingest.Planner.Detect.{Output, UnchangedRow}
use lakefed_ingest.Planner.Stamps.{DatabaseKey, database_key, key_eq, key_mem, sorted_keys}
use lakefed_ingest.Planner.Stamps.Writes.{DatabaseStamp, Stamps, keys_of, unchanged_writes}
use Groups.{Group, group_by_source}

abbrev pub keys : List ControlRow → List DatabaseKey
keys = map database_key

abbrev pub plan_rows : List Plan → List ControlRow
plan_rows = map (λ p. p.cfg)

abbrev pub is_forced : List Text → ControlRow → Bool
is_forced force cfg = elim cfg.src_database [ none ↦ false | some name ↦ text_mem name force ]

-- The candidates' databases when the sinks could not be listed.
abbrev pub unless_listed : Option (List Text) → List DatabaseKey → List DatabaseKey
unless_listed none ks = ks
unless_listed (some sinks) ks = []

-- `elsewhere`, before detection.
unfoldable pub routed_keys : Settings → List Text → List ControlRow → Routing → List DatabaseKey
routed_keys s force configs r =
    keys (plan_rows r.plans)
    ++ (keys_of r.legacy_rows
        ++ (keys (filter_by (is_forced force) configs)
            ++ unless_listed s.existing_sinks (keys_of r.candidates)))

unfoldable pub to_detect : List DatabaseKey → List Group → List (List (ControlRow × Checkpoint))
unfolding key_mem
to_detect elsewhere [] = []
to_detect elsewhere (g ∷ gs) =
    let later = to_detect elsewhere gs in
    if any (λ k. key_mem k elsewhere) (keys_of g.members) then later else g.members ∷ later

abbrev pub Detected : Type 0
Detected = List (ControlRow × Checkpoint) × Output

unfoldable pub detect_all :
    (List (ControlRow × Checkpoint) → Result Problem Output)
    → List (List (ControlRow × Checkpoint))
    → Result Problem (List Detected)
detect_all detect [] = ok []
detect_all detect (ms ∷ rest) = do
  out ← detect ms
  later ← detect_all detect rest
  ok ((ms, out) ∷ later)

-- `out["plans"] or out["failed"] or out["cur"] is None`
unfoldable pub needs_work : Output → Bool
needs_work out = elim out.plans [
  | p ∷ ps ↦ true
  | [] ↦ elim out.failed [ f ∷ fs ↦ true | [] ↦ elim out.cur [ none ↦ true | some cur ↦ false ] ]
]

unfoldable pub found_keys : List Detected → List DatabaseKey
unfolding needs_work
found_keys [] = []
found_keys ((ms, out) ∷ rest) =
    let later = found_keys rest in if needs_work out then keys_of ms ++ later else later

unfoldable pub unchanged_of : List Detected → List Detected
unfolding needs_work
unchanged_of [] = []
unchanged_of ((ms, out) ∷ rest) =
    let later = unchanged_of rest in if needs_work out then later else (ms, out) ∷ later

-- `out["failed"] or out["cur"] is None`
abbrev asked_in_vain : Output → Bool
asked_in_vain out = elim out.failed [
  | f ∷ fs ↦ true
  | [] ↦ elim out.cur [ none ↦ true | some cur ↦ false ]
]

unfoldable pub vain_keys : List Detected → List DatabaseKey
vain_keys [] = []
vain_keys ((ms, out) ∷ rest) =
    let later = vain_keys rest in if asked_in_vain out then keys_of ms ++ later else later

unfoldable pub planned_rows : List Detected → List ControlRow
planned_rows [] = []
planned_rows ((ms, out) ∷ rest) =
    let later = planned_rows rest in
    if asked_in_vain out then later else plan_rows out.plans ++ later

-- `[source, src_database, tables, first_loads]`
pub record Weight : Type 0 where
  pub key : DatabaseKey
  pub tables : ℕ
  pub first_loads : ℕ

unfoldable pub rows_on : DatabaseKey → List ControlRow → ℕ
unfolding database_key
rows_on k [] = 0
rows_on k (c ∷ cs) = (if key_eq (database_key c) k then 1 else 0) + rows_on k cs

-- `_weights`
unfoldable pub weights :
    List DatabaseKey → (configs counted seeds : List ControlRow) → List DatabaseKey → List Weight
unfolding rows_on sorted_keys key_mem
weights work configs counted seeds whole =
    map
      (λ k.
        let tables = if key_mem k whole then rows_on k configs else rows_on k counted in
        record {
          key = k;
          tables = if leb tables 1 then 1 else tables;
          first_loads = rows_on k seeds;
        })
      (sorted_keys work)

abbrev is_first_load : Route → Bool
is_first_load seed = true
is_first_load cursor_seed = true
is_first_load _ = false

pub record CheckResult : Type 0 where
  pub work : List DatabaseKey
  pub weights : List Weight
  pub rows : List UnchangedRow
  pub database_stamps : List DatabaseStamp
  pub unchanged_databases : ℕ
  pub unchanged_tables : ℕ
  pub work_tables : ℕ
  pub detected : ℕ
  pub queries : ℕ
  pub fast_exits : ℕ

abbrev sum_over : (Detected → ℕ) → List Detected → ℕ
sum_over f [] = 0
sum_over f (d ∷ ds) = f d + sum_over f ds

-- `check_collection` once the rows are routed.
unfoldable pub check_routed :
    Settings
    → List Text
    → (ℕ → Option Checkpoint)
    → Stamps
    → (interval now : ℕ) → (List (ControlRow × Checkpoint) → Result Problem Output)
    → List ControlRow
    → Routing
    → Result Problem CheckResult
unfolding routed_keys to_detect detect_all found_keys unchanged_of vain_keys planned_rows weights
check_routed s force checkpoints stamps interval now detect configs r = do
  groups ← group_by_source r.candidates
  let elsewhere = routed_keys s force configs r
  outputs ← detect_all detect (to_detect elsewhere groups)
  (rows, database_stamps) ←
      unchanged_writes checkpoints stamps [] interval now (unchanged_of outputs)
  let work = elsewhere ++ found_keys outputs
  let whole =
      keys (filter_by (is_forced force) configs)
      ++ (unless_listed s.existing_sinks (keys_of r.candidates) ++ vain_keys outputs)
  let counted = plan_rows r.plans ++ (map (λ m. m.0) r.legacy_rows ++ planned_rows outputs)
  let seeds = plan_rows (filter_by (λ p. is_first_load p.route) r.plans)
  ok (record {
    work = sorted_keys work;
    weights = weights work configs counted seeds whole;
    rows = rows;
    database_stamps = database_stamps;
    unchanged_databases = length (unchanged_of outputs);
    unchanged_tables = sum_over (λ d. length (d.0)) (unchanged_of outputs);
    work_tables = length (filter_by (λ c. key_mem (database_key c) work) configs);
    detected = length outputs;
    queries = sum_over (λ d. (d.1).queries) outputs;
    fast_exits = sum_over (λ d. if (d.1).fast_exit then 1 else 0) outputs;
  })

unfoldable pub check_collection :
    Settings
    → List Text
    → (ℕ → Option Checkpoint)
    → Stamps
    → (interval now : ℕ) → (List (ControlRow × Checkpoint) → Result Problem Output)
    → List ControlRow
    → Result Problem CheckResult
unfolding check_routed
check_collection s force checkpoints stamps interval now detect configs = do
  r ← route_tables s checkpoints configs
  check_routed s force checkpoints stamps interval now detect configs r
