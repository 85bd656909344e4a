-- ===== src/Cycle/Launch.antt =====
-- launcher.py: a cycle's run requests, which of them are started, and what became of a run.
use lakefed_ingest.Prelude.{
  ℕ, suc, ◌-◌, Option, none, some, Bool, true, false, not, ◌&&◌, ◌||◌, List, [], ◌∷◌, ◌++◌, Text,
  codes, text_eq, text_lt, is_truthy, if◌then◌else◌, leb, any, all, filter_by, sort_by,
}

-- A source database of a work list.
pub record Work : Type 0 where
  pub source : Text
  pub name : Text

abbrev pub work_eq : Work → Work → Bool
work_eq v w = text_eq v.source w.source && text_eq v.name w.name

abbrev pub work_lt : Work → Work → Bool
work_lt v w = text_lt v.source w.source || (text_eq v.source w.source && text_lt v.name w.name)

unfoldable pub work_mem : Work → List Work → Bool
work_mem w [] = false
work_mem w (v ∷ vs) = work_eq w v || work_mem w vs

-- `sorted({...})` of a work list
unfoldable pub add_work : Work → List Work → List Work
add_work w [] = w ∷ []
add_work w (v ∷ vs) =
    let later = add_work w vs in
    if work_eq w v then v ∷ vs else (if work_lt w v then w ∷ v ∷ vs else v ∷ later)

unfoldable pub sorted_work : List Work → List Work
unfolding add_work
sorted_work [] = []
sorted_work (w ∷ ws) = add_work w (sorted_work ws)

pub record Checked : Type 0 where
  pub collection : Text
  pub work : List Work

pub record Request : Type 0 where
  pub collection : Text
  pub work : List Work
  pub work_id : Text

-- `run_requests`; the id of a work list is `work_id(launch_id, collection)`.
unfoldable pub requests_of : (Text → Text) → List Checked → List Request
unfolding sorted_work
requests_of work_id [] = []
requests_of work_id (r ∷ rs) =
    let later = requests_of work_id rs in
    elim (sorted_work r.work) [
      | [] ↦ later
      | w ∷ ws ↦
          record { collection = r.collection; work = w ∷ ws; work_id = work_id r.collection }
          ∷ later
    ]

unfoldable pub run_requests : (Text → Text) → List Checked → List Request
unfolding requests_of
run_requests work_id per_collection =
    requests_of work_id (sort_by (λ r s. text_lt r.collection s.collection) per_collection)

-- What a running run has of a collection: `whole` is the None of the source.
pub data Coverage : Type 0 where
  whole : Coverage
  some_of : List Work → Coverage

-- `active_collections`: the result as a list of its keys with their values.
abbrev pub Covered : Type 0
Covered = List (Text × Coverage)

unfoldable pub find_covered : Text → Covered → Option Coverage
find_covered c [] = none
find_covered c ((d, k) ∷ rest) = if text_eq d c then some k else find_covered c rest

abbrev add_databases : List Work → Coverage → Coverage
add_databases ws whole = whole
add_databases ws (some_of vs) = some_of (vs ++ ws)

unfoldable pub cover : Text → List Work → Covered → Covered
cover c ws [] = (c, some_of ws) ∷ []
cover c ws ((d, k) ∷ rest) =
    let later = cover c ws rest in
    if text_eq d c then (d, add_databases ws k) ∷ rest else (d, k) ∷ later

unfoldable pub cover_whole : Text → Covered → Covered
cover_whole c [] = (c, whole) ∷ []
cover_whole c ((d, k) ∷ rest) =
    let later = cover_whole c rest in if text_eq d c then (d, whole) ∷ rest else (d, k) ∷ later

unfoldable pub cover_all : List (Text × Work) → Covered → Covered
unfolding cover
cover_all [] covered = covered
cover_all ((c, w) ∷ rest) covered = cover_all rest (cover c (w ∷ []) covered)

-- A run's `task_collection` and `work_id`, stripped.
pub record Active : Type 0 where
  pub collection : Text
  pub work : Text

-- One run of the loop: `work_of` and `work_all_of` read its work list.
unfoldable pub cover_run :
    (Text → Text → List Work) → (Text → List (Text × Work)) → Active → Covered → Covered
unfolding cover_all cover cover_whole
cover_run work_of work_all_of run covered =
    if not (is_truthy (some run.collection))
    then (if is_truthy (some run.work) then cover_all (work_all_of run.work) covered else covered)
    else (if is_truthy (some run.work)
        then cover run.collection (work_of run.work run.collection) covered
        else cover_whole run.collection covered)

unfoldable pub active_collections :
    (Text → Text → List Work) → (Text → List (Text × Work)) → List Active → Covered → Covered
unfolding cover_run
active_collections work_of work_all_of [] covered = covered
active_collections work_of work_all_of (run ∷ runs) covered =
    active_collections work_of work_all_of runs (cover_run work_of work_all_of run covered)

-- What becomes of a request, and of its run.
pub data Outcome : Type 0 where
  already_running deferred not_started start_failed : Outcome
  succeeded canceled skipped failed timed_out started unconfirmed : Outcome

abbrev terminal_states : List Text
terminal_states = codes "TERMINATED" ∷ codes "SKIPPED" ∷ codes "INTERNAL_ERROR" ∷ []

abbrev pub option_is : Option Text → Text → Bool
option_is none t = false
option_is (some s) t = text_eq s t

-- `outcome`, of a run's life cycle state and result state.
unfoldable pub outcome : Option Text → Option Text → Option Outcome
outcome life result =
    if not (any (option_is life) terminal_states)
    then none
    else (if option_is life (codes "SKIPPED")
          || option_is result (codes "MAXIMUM_CONCURRENT_RUNS_REACHED")
        then some skipped
        else (if option_is result (codes "SUCCESS")
            then some succeeded
            else (if option_is result (codes "CANCELED") then some canceled else some failed)))

-- `capacity`; `none` is no limit.
unfoldable pub capacity : (max_concurrent_runs active : ℕ) → (queue_enabled : Bool) → Option ℕ
capacity max_concurrent_runs active queue_enabled =
    if queue_enabled then none else some (max_concurrent_runs - active)

-- The first loop of `launch`: a request is pending (`none`), or it has its outcome.
abbrev has_room : Option ℕ → ℕ → Bool
has_room none pending = true
has_room (some room) pending = not (leb room pending)

unfoldable pub decide : Covered → Option ℕ → ℕ → Request → Option Outcome
unfolding find_covered work_mem
decide already room pending request = elim (find_covered request.collection already) [
  | some whole ↦ some already_running
  | some (some_of vs) ↦
      if all (λ w. work_mem w vs) request.work then some already_running else some deferred
  | none ↦ if has_room room pending then none else some not_started
]

unfoldable pub admit : Covered → Option ℕ → ℕ → List Request → List (Request × Option Outcome)
unfolding decide
admit already room pending [] = []
admit already room pending (r ∷ rs) =
    let decision = decide already room pending r in
    (r, decision) ∷ admit already room (elim decision [ none ↦ suc pending | some o ↦ pending ]) rs

-- `failures`: the outcomes that need attention.
abbrev pub is_ok : Outcome → Bool
is_ok succeeded = true
is_ok started = true
is_ok already_running = true
is_ok deferred = true
is_ok _ = false

-- `failures`, of the runs by their collection and outcome.
unfoldable pub failures : List (Text × Outcome) → List (Text × Outcome)
failures runs = filter_by (λ r. not (is_ok (r.1))) runs
