-- ===== src/Cycle/Deferred.antt =====
-- launcher.cycle_requests: its requests and its deferred databases, against the runs going.
use lakefed_ingest.Prelude.{
  any, ◌&&◌, ◌||◌, true, false, text_eq, ap, ◌∙◌, ℕ, suc, ◌+◌, Bool, not, List, [], ◌∷◌, Text,
  text_lt, filter_by, sort_by, sort_onto, insert_by, tally, tally-append, tally-sort_by, ◌≡◌, refl,
  arith,
}
use lakefed_ingest.Cycle.Shares.{Database, Checked, Run, plan_cycle}
use lakefed_ingest.Cycle.Whole.{in_runs, in_results, plan_cycle-tally}
use lakefed_ingest.Cycle.Launch.{Work, Covered, Coverage, whole, some_of, find_covered, work_mem}
use lakefed_ingest.Cycle.Requests.{
  has_run, deferred_of, kept_of, before, WorkBy, add_database, gather, sort_each, work_of, Request,
  Cycle, number_runs, cycle_requests,
}

pub in_work : (Database → Bool) → WorkBy → ℕ
in_work p [] = 0
in_work p ((c, ds) ∷ rest) = tally p ds + in_work p rest

pub in_requests : (Database → Bool) → List Request → ℕ
unfolding in_work
in_requests p [] = 0
in_requests p (r ∷ rs) = in_work p r.work + in_requests p rs

add_database-tally :
    (p : Database → Bool) (d : Database) (w : WorkBy)
    → in_work p (add_database d w) ≡ tally p (d ∷ []) + in_work p w
unfolding add_database in_work
add_database-tally p d [] = omega arith
add_database-tally p d ((c, ds) ∷ rest) =
    ground (arith, add_database-tally p d rest, tally-append p ds (d ∷ []))

gather-tally :
    (p : Database → Bool) (ds : List Database) (w : WorkBy)
    → in_work p (gather ds w) ≡ tally p ds + in_work p w
unfolding gather
gather-tally p [] w = omega arith
gather-tally p (d ∷ ds) w =
    omega (arith, gather-tally p ds (add_database d w), add_database-tally p d w)

sort_each-tally : (p : Database → Bool) (w : WorkBy) → in_work p (sort_each w) ≡ in_work p w
unfolding sort_each in_work
sort_each-tally p [] = refl
sort_each-tally p ((c, ds) ∷ rest) =
    omega (arith, sort_each-tally p rest, tally-sort_by p before ds)

insert_by-tally :
    (p : Database → Bool) (lt : Text × List Database → Text × List Database → Bool)
    (x : Text × List Database) (w : WorkBy)
    → in_work p (insert_by lt x w) ≡ tally p (x.1) + in_work p w
unfolding insert_by in_work
insert_by-tally p lt x [] = refl
insert_by-tally p lt x (y ∷ w) = ground (arith, insert_by-tally p lt x w)

sort_onto-tally :
    (p : Database → Bool) (lt : Text × List Database → Text × List Database → Bool)
    (sorted w : WorkBy)
    → in_work p (sort_onto lt sorted w) ≡ in_work p sorted + in_work p w
unfolding sort_onto in_work
sort_onto-tally p lt sorted [] = omega arith
sort_onto-tally p lt sorted (x ∷ w) =
    omega (arith, sort_onto-tally p lt (insert_by lt x sorted) w, insert_by-tally p lt x sorted)

work_of-tally : (p : Database → Bool) (ds : List Database) → in_work p (work_of ds) ≡ tally p ds
unfolding work_of sort_by in_work
work_of-tally p ds = omega (
  arith,
  sort_onto-tally p (λ v w. text_lt (v.0) (w.0)) [] (sort_each (gather ds [])),
  sort_each-tally p (gather ds []),
  gather-tally p ds [],
)

number_runs-tally :
    (p : Database → Bool) (n : ℕ) (rs : List Run) → in_requests p (number_runs n rs) ≡ in_runs p rs
unfolding number_runs in_requests in_runs
number_runs-tally p n [] = refl
number_runs-tally p n (r ∷ rs) =
    omega (arith, number_runs-tally p (suc n) rs, work_of-tally p r.databases)

-- Whether the runs going have a database: a run of its whole collection, or of a work list that it stands in.
abbrev pub is_held_by : Coverage → Database → Bool
is_held_by whole d = true
is_held_by (some_of ws) d = any (λ w. text_eq d.source w.source && text_eq d.name w.name) ws

abbrev pub is_held : Covered → Text → Database → Bool
is_held [] c d = false
is_held ((e, cover) ∷ running) c d =
    (text_eq e c && is_held_by cover d) || (not (text_eq e c) && is_held running c d)

-- How many of the databases with work pass a test of their collection and of themselves.
abbrev pub tally_results_by : (Text → Database → Bool) → List Checked → ℕ
tally_results_by p [] = 0
tally_results_by p (r ∷ rs) = tally (p r.collection) r.weights + tally_results_by p rs

work_mem-any :
    (d : Database) (ws : List Work)
    → work_mem (record { source = d.source; name = d.name }) ws
      ≡ any (λ w. text_eq d.source w.source && text_eq d.name w.name) ws
unfolding work_mem
work_mem-any d [] = refl
work_mem-any d (w ∷ ws) = ground (arith, work_mem-any d ws)

has_run-is_held :
    (running : Covered) (c : Text) (d : Database)
    → has_run (find_covered c running) d ≡ is_held running c d
unfolding has_run find_covered
has_run-is_held [] c d = refl
has_run-is_held ((e, whole) ∷ running) c d = ground (arith, has_run-is_held running c d)
has_run-is_held ((e, some_of ws) ∷ running) c d =
    ground (arith, has_run-is_held running c d, work_mem-any d ws)

tally-filter_by :
    (p q r : Database → Bool) (ds : List Database)
    → ((d : Database) → q d ≡ r d)
    → tally p (filter_by q ds) ≡ tally (λ d. p d && r d) ds
tally-filter_by p q r [] h = refl
tally-filter_by p q r (d ∷ ds) h = ground (arith, tally-filter_by p q r ds h, h d)

deferred_of-tally :
    (p : Database → Bool) (running : Covered) (rs : List Checked)
    → tally p (deferred_of running rs) ≡ tally_results_by (λ c d. p d && is_held running c d) rs
unfolding deferred_of
deferred_of-tally p running [] = refl
deferred_of-tally p running (r ∷ rs) = omega (
  arith,
  deferred_of-tally p running rs,
  tally-append p (filter_by (has_run (find_covered r.collection running)) r.weights)
      (deferred_of running rs),
  tally-filter_by p (has_run (find_covered r.collection running)) (is_held running r.collection)
      r.weights (has_run-is_held running r.collection),
)

kept_of-tally :
    (p : Database → Bool) (running : Covered) (rs : List Checked)
    → in_results p (kept_of running rs)
      ≡ tally_results_by (λ c d. p d && not (is_held running c d)) rs
unfolding kept_of in_results
kept_of-tally p running [] = refl
kept_of-tally p running (r ∷ rs) = omega (
  arith,
  kept_of-tally p running rs,
  tally-filter_by p (λ d. not (has_run (find_covered r.collection running) d))
      (λ d. not (is_held running r.collection d)) r.weights
      (λ d. ap not (has_run-is_held running r.collection d)),
)

-- What a cycle does with the databases that pass a test.
pub record IsSplit (running : Covered) (rs : List Checked) (p : Database → Bool) (cycle : Cycle)
    : Type 0 where
  pub held : tally p cycle.deferred ≡ tally_results_by (λ c d. p d && is_held running c d) rs
  pub requested :
      in_requests p cycle.requests ≡ tally_results_by (λ c d. p d && not (is_held running c d)) rs

-- For every test on databases: of those with work that pass, the deferred ones are those that a run going has, by a run of
-- their whole collection or of a work list with their source and name, and the work of the requests is
-- the others, each once.
pub cycle_requests-IsSplit :
    (p : Database → Bool) (per_collection : List Checked) (group_size : ℕ) (running : Covered)
    → IsSplit running per_collection p (cycle_requests per_collection group_size running)
unfolding cycle_requests
cycle_requests-IsSplit p per_collection group_size running = record {
  held =
      tally-sort_by p before (deferred_of running per_collection)
      ∙ deferred_of-tally p running per_collection;
  requested = omega (
    arith,
    number_runs-tally p 1 (plan_cycle (kept_of running per_collection) group_size),
    plan_cycle-tally p (kept_of running per_collection) group_size,
    kept_of-tally p running per_collection,
  );
}
