-- ===== src/Cycle/Shares.antt =====
-- initial_check.plan_cycle: the databases with work shared out over runs.
use lakefed_ingest.Prelude.{
  ℕ, zero, suc, ◌+◌, ◌-◌, ◌*◌, ◌/◌, Bool, true, false, not, ◌&&◌, ◌||◌, List, [], ◌∷◌, ◌++◌, map,
  Text, text_eq, text_lt, add_text, if◌then◌else◌, leb, ltb, ◌==◌, any, filter_by, length, sort_by,
}

-- A database with work: an entry of `weights`, with its collection.
pub record Database : Type 0 where
  pub collection : Text
  pub source : Text
  pub name : Text
  pub tables : ℕ
  pub first_loads : ℕ

-- One collection's result of the check; the entries of its `weights` carry the collection.
pub record Checked : Type 0 where
  pub collection : Text
  pub weights : List Database

pub record Run : Type 0 where
  pub databases : List Database
  pub collections : List Text
  pub tables : ℕ
  pub first_loads : Bool

abbrev pub sum_tables : List Database → ℕ
sum_tables [] = 0
sum_tables (d ∷ ds) = d.tables + sum_tables ds

abbrev pub loads_first : Checked → Bool
loads_first r = any (λ d. ltb 0 d.first_loads) r.weights

-- `sorted(loading.items())`, whose keys are distinct.
unfoldable pub loading_runs : List Checked → List Run
loading_runs results =
    map
      (λ r. record {
        databases = r.weights;
        collections = r.collection ∷ [];
        tables = sum_tables r.weights;
        first_loads = true;
      })
      (sort_by (λ r s. text_lt r.collection s.collection) (filter_by loads_first results))

unfoldable pub shared_databases : List Checked → List Database
shared_databases [] = []
shared_databases (r ∷ rs) =
    let later = shared_databases rs in if loads_first r then later else r.weights ++ later

-- `(-tables, collection, source, database)`
unfoldable pub bigger : Database → Database → Bool
bigger d e =
    ltb e.tables d.tables
    || (d.tables == e.tables
        && (text_lt d.collection e.collection
            || (text_eq d.collection e.collection
                && (text_lt d.source e.source
                    || (text_eq d.source e.source && text_lt d.name e.name)))))

-- The databases of a run in the making, and their tables.
pub record Bin : Type 0 where
  pub held : List Database
  pub load : ℕ

abbrev pub empty_bin : Bin
empty_bin = record { held = []; load = 0 }

abbrev pub bin_of : Database → Bin
bin_of d = record { held = d ∷ []; load = d.tables }

abbrev pub empty_bins : ℕ → List Bin
empty_bins zero = []
empty_bins (suc n) = empty_bin ∷ empty_bins n

-- The least load, at most `n`.
unfoldable pub least : ℕ → List Bin → ℕ
least n [] = n
least n (b ∷ bs) = least (if ltb b.load n then b.load else n) bs

-- The bin with the least load, the first on a tie, takes the database.
unfoldable pub put_at : ℕ → Database → List Bin → List Bin
put_at n d [] = []
put_at n d (b ∷ bs) =
    let later = put_at n d bs in
    if b.load == n
    then record { held = b.held ++ d ∷ []; load = b.load + d.tables } ∷ bs
    else b ∷ later

unfoldable pub put_least : Database → List Bin → List Bin
unfolding least put_at
put_least d [] = []
put_least d (b ∷ bs) = put_at (least b.load bs) d (b ∷ bs)

unfoldable pub fill : List Database → List Bin → List Bin
unfolding put_least
fill [] bins = bins
fill (d ∷ ds) bins = fill ds (put_least d bins)

-- `sorted({c for c, *_ in run})`
unfoldable pub names : List Database → List Text
unfolding add_text
names [] = []
names (d ∷ ds) = add_text d.collection (names ds)

unfoldable pub made_runs : List Bin → List Run
unfolding names
made_runs [] = []
made_runs (b ∷ bs) =
    let later = made_runs bs in
    elim b.held [
      | [] ↦ later
      | d ∷ ds ↦
          record {
            databases = d ∷ ds;
            collections = names (d ∷ ds);
            tables = b.load;
            first_loads = false;
          }
          ∷ later
    ]

-- The number of shared runs: the tables over the group size, rounded up, and at least 1.
abbrev pub run_count : ℕ → ℕ → ℕ
run_count total group_size =
    let size = if leb group_size 1 then 1 else group_size in
    let runs = (total + size - 1) / size in if leb runs 1 then 1 else runs

-- `item[3] > total / count`: a float there, exact as long as the products stay below 2 ^ 53.
abbrev pub exceeds : ℕ → ℕ → Database → Bool
exceeds total count d = ltb total (d.tables * count)

-- `max(count - len(alone), 1 if rest else 0)`
abbrev pub open_count : ℕ → ℕ → List Database → ℕ
open_count count alone [] = count - alone
open_count count alone (d ∷ ds) = if leb (count - alone) 1 then 1 else count - alone

unfoldable pub shared_runs : List Database → ℕ → List Run
unfolding bigger fill made_runs
shared_runs shared group_size =
    let total = sum_tables shared in
    let count = run_count total group_size in
    let order = sort_by bigger shared in
    let alone = filter_by (exceeds total count) order in
    let rest = filter_by (λ d. not (exceeds total count d)) order in
    sort_by (λ r s. ltb s.tables r.tables)
      (made_runs
        (map bin_of alone ++ fill rest (empty_bins (open_count count (length alone) rest))))

-- `runs + sorted(made)`, or `runs` alone when nothing is shared.
unfoldable pub with_shared : List Run → ℕ → List Database → List Run
unfolding shared_runs
with_shared runs group_size [] = runs
with_shared runs group_size (d ∷ ds) = runs ++ shared_runs (d ∷ ds) group_size

unfoldable pub plan_cycle : List Checked → ℕ → List Run
unfolding loading_runs shared_databases with_shared
plan_cycle results group_size =
    with_shared (loading_runs results) group_size (shared_databases results)
