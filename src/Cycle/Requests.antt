-- ===== src/Cycle/Requests.antt =====
-- launcher.cycle_requests: a cycle's runs as requests, less what a run going has; initial_check.group_size_of.
use lakefed_ingest.Prelude.{
  ℕ, suc, ◌+◌, ◌-◌, ◌/◌, Option, none, some, Bool, true, false, not, ◌&&◌, ◌||◌, List, [], ◌∷◌,
  ◌++◌, Text, text_eq, text_lt, if◌then◌else◌, leb, length, filter_by, sort_by,
}
use lakefed_ingest.Cycle.Shares.{Database, Checked, Run, plan_cycle}
use lakefed_ingest.Cycle.Launch.{Covered, Coverage, whole, some_of, find_covered, work_mem}

-- `covered is None or (source, database) in covered`
unfoldable pub has_run : Option Coverage → Database → Bool
unfolding work_mem
has_run none d = false
has_run (some whole) d = true
has_run (some (some_of ws)) d = work_mem (record { source = d.source; name = d.name }) ws

unfoldable pub deferred_of : Covered → List Checked → List Database
unfolding has_run find_covered
deferred_of running [] = []
deferred_of running (r ∷ rs) =
    filter_by (has_run (find_covered r.collection running)) r.weights ++ deferred_of running rs

unfoldable pub kept_of : Covered → List Checked → List Checked
unfolding has_run find_covered
kept_of running [] = []
kept_of running (r ∷ rs) =
    record r {
      weights = filter_by (λ d. not (has_run (find_covered r.collection running) d)) r.weights;
    }
    ∷ kept_of running rs

-- `(collection, source, src_database)`
abbrev pub before : Database → Database → Bool
before d e =
    text_lt d.collection e.collection
    || (text_eq d.collection e.collection
        && (text_lt d.source e.source || (text_eq d.source e.source && text_lt d.name e.name)))

-- A request's work, per collection.
abbrev pub WorkBy : Type 0
WorkBy = List (Text × List Database)

-- `work.setdefault(collection, []).append((source, database))`
unfoldable pub add_database : Database → WorkBy → WorkBy
add_database d [] = (d.collection, d ∷ []) ∷ []
add_database d ((c, ds) ∷ rest) =
    let later = add_database d rest in
    if text_eq d.collection c then (c, ds ++ d ∷ []) ∷ rest else (c, ds) ∷ later

unfoldable pub gather : List Database → WorkBy → WorkBy
unfolding add_database
gather [] work = work
gather (d ∷ ds) work = gather ds (add_database d work)

unfoldable pub sort_each : WorkBy → WorkBy
sort_each [] = []
sort_each ((c, ds) ∷ rest) = (c, sort_by before ds) ∷ sort_each rest

-- `{c: sorted(w) for c, w in sorted(work.items())}`
unfoldable pub work_of : List Database → WorkBy
unfolding gather sort_each
work_of ds = sort_by (λ v w. text_lt (v.0) (w.0)) (sort_each (gather ds []))

pub record Request : Type 0 where
  pub number : ℕ
  pub single : Text
  pub collections : List Text
  pub work : WorkBy
  pub tables : ℕ
  pub first_loads : Bool

-- The run's one collection, or the empty text.
abbrev single_of : List Text → Text
single_of (c ∷ []) = c
single_of _ = []

unfoldable pub number_runs : ℕ → List Run → List Request
unfolding work_of
number_runs n [] = []
number_runs n (r ∷ rs) =
    record {
      number = n;
      single = single_of r.collections;
      collections = r.collections;
      work = work_of r.databases;
      tables = r.tables;
      first_loads = r.first_loads;
    }
    ∷ number_runs (suc n) rs

pub record Cycle : Type 0 where
  pub requests : List Request
  pub deferred : List Database

unfoldable pub cycle_requests : List Checked → ℕ → Covered → Cycle
unfolding deferred_of kept_of number_runs
cycle_requests per_collection group_size running = record {
  requests = number_runs 1 (plan_cycle (kept_of running per_collection) group_size);
  deferred = sort_by before (deferred_of running per_collection);
}

-- `group_size_of`, over the tables of each group.
abbrev sum_of : List ℕ → ℕ
sum_of [] = 0
sum_of (n ∷ ns) = n + sum_of ns

unfoldable pub group_size_of : List ℕ → ℕ
group_size_of counts =
    let groups = if leb (length counts) 1 then 1 else length counts in
    let size = (sum_of counts + groups - 1) / groups in if leb size 1 then 1 else size
