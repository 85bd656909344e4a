-- ===== src/Placement.antt =====
-- The operations app's placement.py: which group each database of a job goes to. A share of a group is compared by
-- products, where the source multiplies and divides floats; the two agree below 2 ^ 53 tables.
pub mod Even
pub mod Lightest
pub mod Joined
use lakefed_ingest.Prelude.{
  ℕ, zero, suc, ◌+◌, ◌*◌, ◌/◌, ◌%◌, Option, none, some, Bool, true, false, not, ◌&&◌, ◌||◌, List,
  [], ◌∷◌, map, Text, codes, lower, text_eq, text_lt, if◌then◌else◌, ltb, leb, ◌==◌, sort_by,
}

abbrev max_of : ℕ → ℕ → ℕ
max_of a b = if ltb a b then b else a

-- `TABLES_PER_GROUP`
abbrev pub tables_per_group : ℕ
tables_per_group = 10000

-- A remainder of more than a tenth of a group makes one more group. `per_group` is positive: the source divides by it.
unfoldable pub groups_for_tables : ℕ → ℕ → ℕ
groups_for_tables tables per_group =
    max_of 1 (tables / per_group + (if ltb per_group (tables % per_group * 10) then 1 else 0))

-- How many groups a server gets: a number of groups, or a size of a group.
pub data Groups : Type 0 where
  number size : ℕ → Groups

unfoldable pub group_count : ℕ → Option Groups → ℕ
unfolding groups_for_tables
group_count tables none = groups_for_tables tables tables_per_group
group_count tables (some (size n)) = groups_for_tables tables n
group_count tables (some (number n)) =
    if n == 0 then groups_for_tables tables tables_per_group else n

abbrev or_number : Option ℕ → Option ℕ → Option ℕ
or_number none other = other
or_number (some zero) other = other
or_number (some (suc n)) other = some (suc n)

abbrev size_of : Option ℕ → Option Groups
size_of none = none
size_of (some zero) = none
size_of (some (suc n)) = some (size (suc n))

unfoldable pub sizing : Option ℕ → Option ℕ → Option ℕ → Option Groups
sizing (some (suc n)) per_group job_per_group = some (number (suc n))
sizing (some zero) per_group job_per_group = size_of (or_number per_group job_per_group)
sizing none per_group job_per_group = size_of (or_number per_group job_per_group)

-- `sizes[key] = sizes.get(key, 0) + tables` on a dict in insertion order.
unfoldable pub add_size : Text → ℕ → List (Text × ℕ) → List (Text × ℕ)
add_size key n [] = (key, n) ∷ []
add_size key n ((k, m) ∷ sizes) =
    let later = add_size key n sizes in if text_eq k key then (k, m + n) ∷ sizes else (k, m) ∷ later

-- The tables of each name, in lower case.
unfoldable pub sizes_onto : List (Text × ℕ) → List (Text × ℕ) → List (Text × ℕ)
unfolding add_size
sizes_onto sizes [] = sizes
sizes_onto sizes ((name, tables) ∷ databases) =
    sizes_onto (add_size (lower name) tables sizes) databases

-- The sort key `(-tables, name)`.
abbrev pub bigger : Text × ℕ → Text × ℕ → Bool
bigger (k, m) (l, n) = ltb n m || (m == n && text_lt k l)

unfoldable pub replicate : ℕ → ℕ → List ℕ
replicate zero x = []
replicate (suc n) x = x ∷ replicate n x

-- The first index of the least load: `best` is the least so far, of load `least`; `i` is the next index.
unfoldable pub lightest_from : ℕ → ℕ → ℕ → List ℕ → ℕ
lightest_from best least i [] = best
lightest_from best least i (load ∷ loads) =
    let here = lightest_from i load (i + 1) loads in
    let there = lightest_from best least (i + 1) loads in if ltb load least then here else there

unfoldable pub lightest : List ℕ → ℕ
unfolding lightest_from
lightest [] = 0
lightest (load ∷ loads) = lightest_from 0 load 1 loads

unfoldable pub add_at : ℕ → ℕ → List ℕ → List ℕ
add_at i n [] = []
add_at zero n (load ∷ loads) = (load + n) ∷ loads
add_at (suc i) n (load ∷ loads) = load ∷ add_at i n loads

-- The loop of `even`: the group's index of each database, in their order.
unfoldable pub spread : List ℕ → List (Text × ℕ) → List (Text × ℕ)
unfolding lightest add_at
spread loads [] = []
spread loads ((name, tables) ∷ databases) =
    (name, lightest loads) ∷ spread (add_at (lightest loads) tables loads) databases

unfoldable pub even : List (Text × ℕ) → ℕ → List (Text × ℕ)
unfolding sizes_onto spread replicate
even databases groups =
    spread (replicate (max_of 1 groups) 0) (sort_by bigger (sizes_onto [] databases))
