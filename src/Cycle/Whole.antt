-- ===== src/Cycle/Whole.antt =====
-- initial_check.plan_cycle: the databases of the runs that it makes.
use lakefed_ingest.Prelude.{
  ℕ, zero, suc, ◌+◌, ◌<◌, Bool, true, false, not, ◌||◌, List, [], ◌∷◌, ◌++◌, map, if◌then◌else◌,
  ltb, ◌==◌, filter_by, length, sort_by, tally, tally-append, tally-sort_by, text_lt, insert_by,
  sort_onto, arith, ◌≡◌, refl, ==_iff,
}
use lakefed_ingest.Cycle.Shares.{
  Database, Checked, Run, sum_tables, loads_first, loading_runs, shared_databases, bigger, Bin,
  bin_of, empty_bins, least, put_at, put_least, fill, made_runs, run_count, exceeds, open_count,
  shared_runs, with_shared, plan_cycle,
}

-- How many databases that pass a test stand in the runs, in the bins, and in the check's results.
unfoldable pub in_runs : (Database → Bool) → List Run → ℕ
in_runs p [] = 0
in_runs p (r ∷ rs) = tally p r.databases + in_runs p rs

in_bins : (Database → Bool) → List Bin → ℕ
in_bins p [] = 0
in_bins p (b ∷ bs) = tally p b.held + in_bins p bs

unfoldable pub in_results : (Database → Bool) → List Checked → ℕ
in_results p [] = 0
in_results p (r ∷ rs) = tally p r.weights + in_results p rs

in_runs-append :
    (p : Database → Bool) (xs ys : List Run) → in_runs p (xs ++ ys) ≡ in_runs p xs + in_runs p ys
unfolding in_runs
in_runs-append p [] ys = omega arith
in_runs-append p (r ∷ rs) ys = omega (arith, in_runs-append p rs ys)

in_bins-append :
    (p : Database → Bool) (xs ys : List Bin) → in_bins p (xs ++ ys) ≡ in_bins p xs + in_bins p ys
unfolding in_bins
in_bins-append p [] ys = omega arith
in_bins-append p (r ∷ rs) ys = omega (arith, in_bins-append p rs ys)

-- The weight of sorted runs and results is that of the list.
in_runs-insert_by :
    (p : Database → Bool) (before : Run → Run → Bool) (x : Run) (ys : List Run)
    → in_runs p (insert_by before x ys) ≡ in_runs p (x ∷ ys)
unfolding in_runs insert_by
in_runs-insert_by p before x [] = refl
in_runs-insert_by p before x (y ∷ ys) = ground (arith, in_runs-insert_by p before x ys)

in_runs-sort_onto :
    (p : Database → Bool) (before : Run → Run → Bool) (sorted xs : List Run)
    → in_runs p (sort_onto before sorted xs) ≡ in_runs p sorted + in_runs p xs
unfolding in_runs sort_onto
in_runs-sort_onto p before sorted [] = omega arith
in_runs-sort_onto p before sorted (x ∷ xs) = omega (
  arith,
  in_runs-sort_onto p before (insert_by before x sorted) xs,
  in_runs-insert_by p before x sorted,
)

in_results-insert_by :
    (p : Database → Bool) (before : Checked → Checked → Bool) (x : Checked) (ys : List Checked)
    → in_results p (insert_by before x ys) ≡ in_results p (x ∷ ys)
unfolding in_results insert_by
in_results-insert_by p before x [] = refl
in_results-insert_by p before x (y ∷ ys) = ground (arith, in_results-insert_by p before x ys)

in_results-sort_onto :
    (p : Database → Bool) (before : Checked → Checked → Bool) (sorted xs : List Checked)
    → in_results p (sort_onto before sorted xs) ≡ in_results p sorted + in_results p xs
unfolding in_results sort_onto
in_results-sort_onto p before sorted [] = omega arith
in_results-sort_onto p before sorted (x ∷ xs) = omega (
  arith,
  in_results-sort_onto p before (insert_by before x sorted) xs,
  in_results-insert_by p before x sorted,
)

tally-parts :
    (p q : Database → Bool) (ds : List Database)
    → tally p (filter_by q ds) + tally p (filter_by (λ d. not (q d)) ds) ≡ tally p ds
tally-parts p q [] = omega arith
tally-parts p q (d ∷ ds) = ground (arith, tally-parts p q ds)

-- Some bin has the load that is looked for.
has_load : ℕ → List Bin → Bool
has_load n [] = false
has_load n (b ∷ bs) = b.load == n || has_load n bs

put_at-tally :
    (p : Database → Bool) (n : ℕ) (d : Database) (bs : List Bin)
    → has_load n bs ≡ true
    → in_bins p (put_at n d bs) ≡ tally p (d ∷ []) + in_bins p bs
unfolding put_at in_bins has_load
put_at-tally p n d [] h = absurd (ground arith)
put_at-tally p n d (b ∷ bs) h =
    ground (arith, put_at-tally p n d bs, tally-append p b.held (d ∷ []))

least-has_load : (n : ℕ) (bs : List Bin) → (n == least n bs || has_load (least n bs) bs) ≡ true
unfolding least has_load
least-has_load n [] = ground (arith, ==_iff n n)
least-has_load n (b ∷ bs) = ground (
  arith,
  least-has_load (if ltb b.load n then b.load else n) bs,
  least-has_load n bs,
  least-has_load b.load bs,
)

put_least-tally :
    (p : Database → Bool) (d : Database) (bs : List Bin)
    → 0 < length bs
    → (in_bins p (put_least d bs) ≡ tally p (d ∷ []) + in_bins p bs)
unfolding put_least has_load
put_least-tally p d [] h = absurd (omega arith)
put_least-tally p d (b ∷ bs) h =
    put_at-tally p (least b.load bs) d (b ∷ bs) (least-has_load b.load bs)

put_at-length : (n : ℕ) (d : Database) (bs : List Bin) → length (put_at n d bs) ≡ length bs
unfolding put_at
put_at-length n d [] = refl
put_at-length n d (b ∷ bs) = ground (arith, put_at-length n d bs)

put_least-length : (d : Database) (bs : List Bin) → length (put_least d bs) ≡ length bs
unfolding put_least
put_least-length d [] = refl
put_least-length d (b ∷ bs) = put_at-length (least b.load bs) d (b ∷ bs)

fill-tally :
    (p : Database → Bool) (ds : List Database) (bs : List Bin)
    → (0 < length ds → 0 < length bs)
    → in_bins p (fill ds bs) ≡ tally p ds + in_bins p bs
unfolding fill
fill-tally p [] bs h = omega arith
fill-tally p (d ∷ ds) bs h =
    let some_bin : 0 < length bs = h (omega arith) in
    omega (
      arith,
      fill-tally p ds (put_least d bs) (λ k. omega (arith, put_least-length d bs, some_bin)),
      put_least-tally p d bs some_bin,
    )

made_runs-tally : (p : Database → Bool) (bs : List Bin) → in_runs p (made_runs bs) ≡ in_bins p bs
unfolding made_runs in_runs in_bins
made_runs-tally p [] = refl
made_runs-tally p (b ∷ bs) = ground (arith, made_runs-tally p bs)

bins_of-tally : (p : Database → Bool) (ds : List Database) → in_bins p (map bin_of ds) ≡ tally p ds
unfolding in_bins
bins_of-tally p [] = refl
bins_of-tally p (d ∷ ds) = omega (arith, bins_of-tally p ds)

empty_bins-tally : (p : Database → Bool) (n : ℕ) → in_bins p (empty_bins n) ≡ 0
unfolding in_bins
empty_bins-tally p zero = refl
empty_bins-tally p (suc n) = omega (arith, empty_bins-tally p n)

length-empty_bins : (n : ℕ) → length (empty_bins n) ≡ n
length-empty_bins zero = refl
length-empty_bins (suc n) = omega (arith, length-empty_bins n)

open_count-pos :
    (count alone : ℕ) (ds : List Database) → 0 < length ds → 0 < open_count count alone ds
open_count-pos count alone [] h = absurd (omega arith)
open_count-pos count alone (d ∷ ds) h = ground arith

shared_runs-tally :
    (p : Database → Bool) (shared : List Database) (group_size : ℕ)
    → in_runs p (shared_runs shared group_size) ≡ tally p shared
unfolding shared_runs sort_by in_runs
shared_runs-tally p shared group_size =
    let count = run_count (sum_tables shared) group_size in
    let order = sort_by bigger shared in
    let large = exceeds (sum_tables shared) count in
    let alone = filter_by large order in
    let rest = filter_by (λ d. not (large d)) order in
    let n = open_count count (length alone) rest in
    let bins = map bin_of alone ++ fill rest (empty_bins n) in
    omega (
      arith,
      in_runs-sort_onto p (λ r s. ltb s.tables r.tables) [] (made_runs bins),
      made_runs-tally p bins,
      in_bins-append p (map bin_of alone) (fill rest (empty_bins n)),
      bins_of-tally p alone,
      fill-tally p rest (empty_bins n)
          (λ k. omega (arith, length-empty_bins n, open_count-pos count (length alone) rest k)),
      empty_bins-tally p n,
      tally-parts p large order,
      tally-sort_by p bigger shared,
    )

run_of : Checked → Run
run_of r = record {
  databases = r.weights;
  collections = r.collection ∷ [];
  tables = sum_tables r.weights;
  first_loads = true;
}

map-tally : (p : Database → Bool) (rs : List Checked) → in_runs p (map run_of rs) ≡ in_results p rs
unfolding in_runs in_results run_of
map-tally p [] = refl
map-tally p (r ∷ rs) = omega (arith, map-tally p rs)

loading_runs-tally :
    (p : Database → Bool) (rs : List Checked)
    → in_runs p (loading_runs rs) ≡ in_results p (filter_by loads_first rs)
unfolding loading_runs sort_by run_of in_results
loading_runs-tally p rs = omega (
  arith,
  map-tally p (sort_by (λ r s. text_lt r.collection s.collection) (filter_by loads_first rs)),
  in_results-sort_onto p (λ r s. text_lt r.collection s.collection) [] (filter_by loads_first rs),
)

shared-tally :
    (p : Database → Bool) (rs : List Checked)
    → in_results p (filter_by loads_first rs) + tally p (shared_databases rs) ≡ in_results p rs
unfolding shared_databases in_results
shared-tally p [] = refl
shared-tally p (r ∷ rs) =
    ground (arith, shared-tally p rs, tally-append p r.weights (shared_databases rs))

with_shared-tally :
    (p : Database → Bool) (runs : List Run) (group_size : ℕ) (shared : List Database)
    → in_runs p (with_shared runs group_size shared) ≡ in_runs p runs + tally p shared
unfolding with_shared
with_shared-tally p runs group_size [] = omega arith
with_shared-tally p runs group_size (d ∷ ds) = omega (
  arith,
  in_runs-append p runs (shared_runs (d ∷ ds) group_size),
  shared_runs-tally p (d ∷ ds) group_size,
)

-- The runs of a cycle hold the databases with work exactly as the check found them: for every test on databases, as
-- many that pass stand in the runs as in the check's results. So no database is left out, and none is in two runs.
pub plan_cycle-tally :
    (p : Database → Bool) (results : List Checked) (group_size : ℕ)
    → in_runs p (plan_cycle results group_size) ≡ in_results p results
unfolding plan_cycle
plan_cycle-tally p results group_size = omega (
  arith,
  with_shared-tally p (loading_runs results) group_size (shared_databases results),
  loading_runs-tally p results,
  shared-tally p results,
)
