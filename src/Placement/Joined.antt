-- ===== src/Placement/Joined.antt =====
-- placement.even: what it answers, summed over the databases that it was given.
use lakefed_ingest.Prelude.{
  ℕ, zero, suc, ◌+◌, ◌≤◌, ◌<◌, Bool, false, not, ◌&&◌, ◌||◌, List, [], ◌∷◌, Text, lower, text_eq,
  text_eq_iff, text_eq_refl, if◌then◌else◌, ◌==◌, length, any, All, tally, tally-sort_by, sort_by,
  sort_onto, insert_by, ◌≡◌, ◌∙◌, refl, arith, Bool-cases, inl, inr,
}
use lakefed_ingest.Placement.{
  add_size, sizes_onto, bigger, replicate, lightest, add_at, spread, even,
}
use lakefed_ingest.Placement.Even.{
  load_at, loads_after, spread-IsBalanced, length-loads_after, spread-within, length-replicate,
  load_at-replicate, length-add_at, load_at-add_at, lightest-inside,
}

-- An entry is of the given name.
abbrev pub is_of : {A : Type 0} → Text → Text × A → Bool
is_of t d = text_eq (d.0) t

-- The sum of the tables of the names that pass a test.
pub weigh : (Text → Bool) → List (Text × ℕ) → ℕ
weigh f [] = 0
weigh f ((k, n) ∷ ds) = (if f k then n else 0) + weigh f ds

weigh-add_size :
    (f : Text → Bool) (key : Text) (n : ℕ) (sizes : List (Text × ℕ))
    → weigh f (add_size key n sizes) ≡ (if f key then n else 0) + weigh f sizes
unfolding weigh add_size
weigh-add_size f key n [] = refl
weigh-add_size f key n ((k, m) ∷ sizes) =
    ground (arith, weigh-add_size f key n sizes, text_eq_iff k key)

weigh-sizes_onto :
    (f : Text → Bool) (sizes databases : List (Text × ℕ))
    → weigh f (sizes_onto sizes databases) ≡ weigh f sizes + weigh (λ k. f (lower k)) databases
unfolding weigh sizes_onto
weigh-sizes_onto f sizes [] = omega arith
weigh-sizes_onto f sizes ((name, n) ∷ databases) = omega (
  arith,
  weigh-sizes_onto f (add_size (lower name) n sizes) databases,
  weigh-add_size f (lower name) n sizes,
)

weigh-insert_by :
    (f : Text → Bool) (before : Text × ℕ → Text × ℕ → Bool) (d : Text × ℕ) (ds : List (Text × ℕ))
    → weigh f (insert_by before d ds) ≡ weigh f (d ∷ ds)
unfolding weigh insert_by
weigh-insert_by f before d [] = refl
weigh-insert_by f before d (e ∷ ds) = ground (arith, weigh-insert_by f before d ds)

weigh-sort_onto :
    (f : Text → Bool) (before : Text × ℕ → Text × ℕ → Bool) (sorted ds : List (Text × ℕ))
    → weigh f (sort_onto before sorted ds) ≡ weigh f sorted + weigh f ds
unfolding weigh sort_onto
weigh-sort_onto f before sorted [] = omega arith
weigh-sort_onto f before sorted (d ∷ ds) = ground (
  arith,
  weigh-sort_onto f before (insert_by before d sorted) ds,
  weigh-insert_by f before d sorted,
)

weigh-sort_by :
    (f : Text → Bool) (before : Text × ℕ → Text × ℕ → Bool) (ds : List (Text × ℕ))
    → weigh f (sort_by before ds) ≡ weigh f ds
unfolding weigh sort_by
weigh-sort_by f before ds = omega (arith, weigh-sort_onto f before [] ds)

any-add_size :
    (t key : Text) (n : ℕ) (sizes : List (Text × ℕ))
    → any (is_of t) (add_size key n sizes) ≡ (any (is_of t) sizes || text_eq key t)
unfolding add_size
any-add_size t key n [] = ground arith
any-add_size t key n ((k, m) ∷ sizes) =
    ground
      (arith, any-add_size t key n sizes, text_eq_iff k key, text_eq_iff k t, text_eq_iff key t)

tally-add_size :
    (t key : Text) (n : ℕ) (sizes : List (Text × ℕ))
    → tally (is_of t) (add_size key n sizes)
      ≡ (if text_eq key t && not (any (is_of t) sizes) then 1 else 0) + tally (is_of t) sizes
unfolding add_size
tally-add_size t key n [] = ground arith
tally-add_size t key n ((k, m) ∷ sizes) =
    ground
      (arith, tally-add_size t key n sizes, text_eq_iff k key, text_eq_iff k t, text_eq_iff key t)

abbrev named : Text → Text × ℕ → Bool
named t d = text_eq (lower (d.0)) t

-- The sizes have each name once, as a dict does.
tally-sizes_onto :
    (t : Text) (sizes databases : List (Text × ℕ))
    → tally (is_of t) sizes ≡ (if any (is_of t) sizes then 1 else 0)
    → tally (is_of t) (sizes_onto sizes databases)
      ≡ (if any (is_of t) sizes || any (named t) databases then 1 else 0)
unfolding sizes_onto
tally-sizes_onto t sizes [] h = ground arith
tally-sizes_onto t sizes ((name, n) ∷ databases) h = ground (
  arith,
  tally-sizes_onto t (add_size (lower name) n sizes) databases,
  tally-add_size t (lower name) n sizes,
  any-add_size t (lower name) n sizes,
)

tally-spread :
    (t : Text) (loads : List ℕ) (ds : List (Text × ℕ))
    → tally (is_of t) (spread loads ds) ≡ tally (is_of t) ds
unfolding spread
tally-spread t loads [] = refl
tally-spread t loads ((name, n) ∷ ds) =
    omega (arith, tally-spread t (add_at (lightest loads) n loads) ds)

-- A name that was put in a group.
abbrev pub in_group : ℕ → List (Text × ℕ) → Text → Bool
in_group i out name = any (λ p. text_eq (p.0) name && p.1 == i) out

absent-in_group :
    (i : ℕ) (name : Text) (out : List (Text × ℕ))
    → tally (is_of name) out ≡ 0
    → in_group i out name ≡ false
absent-in_group i name [] h = refl
absent-in_group i name (p ∷ out) h = ground (arith, absent-in_group i name out)

weigh-absent :
    (i g : ℕ) (name : Text) (out ds : List (Text × ℕ))
    → tally (is_of name) ds ≡ 0
    → weigh (in_group i ((name, g) ∷ out)) ds ≡ weigh (in_group i out) ds
unfolding weigh
weigh-absent i g name out [] h = refl
weigh-absent i g name out ((k, n) ∷ ds) h =
    ground (arith, weigh-absent i g name out ds, text_eq_iff k name, text_eq_iff name k)

abbrev IsDistinct : List (Text × ℕ) → Type 0
IsDistinct ds = (t : Text) → tally (is_of t) ds ≤ 1

-- What the loop adds to a group is the tables of the databases that it put there.
load_at-loads_after :
    (i n : ℕ) (loads : List ℕ) (ds : List (Text × ℕ))
    → length loads ≡ suc n
    → IsDistinct ds
    → load_at i (loads_after loads ds) ≡ load_at i loads + weigh (in_group i (spread loads ds)) ds
unfolding loads_after spread weigh
load_at-loads_after i n loads [] e h = omega arith
load_at-loads_after i n loads ((name, tables) ∷ ds) e h =
    let g = lightest loads in
    let next = add_at g tables loads in
    let absent : tally (is_of name) ds ≡ 0 = ground (arith, h name, text_eq_refl name) in
    ground (
      arith,
      load_at-loads_after i n next ds (omega (arith, e, length-add_at g tables loads))
          (λ t. omega (arith, h t)),
      load_at-add_at i g tables loads (lightest-inside n loads e),
      weigh-absent i g name (spread next ds) ds absent,
      absent-in_group i name (spread next ds) (tally-spread name next ds ∙ absent),
      text_eq_refl name,
    )

-- What `even` promises of its answer `out`, for `groups` groups.
pub record IsSpread (databases : List (Text × ℕ)) (groups : ℕ) (out : List (Text × ℕ))
    : Type 0 where
  pub once : (t : Text) → tally (is_of t) out ≡ (if any (named t) databases then 1 else 0)
  pub within : All (λ p. p.1 < groups) out
  pub balanced :
      (m i j : ℕ)
      → All (λ d. d.1 ≤ m) (sizes_onto [] databases)
      → i < groups
      → j < groups
      → weigh (λ k. in_group i out (lower k)) databases
        ≤ weigh (λ k. in_group j out (lower k)) databases + m

All-insert_by :
    (P : Text × ℕ → Type 0) (d : Text × ℕ) (ds : List (Text × ℕ))
    → P d
    → All P ds
    → All P (insert_by bigger d ds)
unfolding insert_by
All-insert_by P d [] h k = (h, tt)
All-insert_by P d (e ∷ ds) h k = elim (Bool-cases (bigger d e)) [
  | inl first ↦ rw first (h, k)
  | inr later ↦ rw later (k.0, All-insert_by P d ds h k.1)
]

All-sort_onto :
    (P : Text × ℕ → Type 0) (sorted ds : List (Text × ℕ))
    → All P sorted
    → All P ds
    → All P (sort_onto bigger sorted ds)
unfolding sort_onto
All-sort_onto P sorted [] h k = h
All-sort_onto P sorted (d ∷ ds) h k =
    All-sort_onto P (insert_by bigger d sorted) ds (All-insert_by P d sorted k.0 h) k.1

-- The loop over the sorted sizes of the databases.
spread-IsSpread :
    (databases : List (Text × ℕ)) (n : ℕ)
    → IsSpread databases
        (suc n)
        (spread (replicate (suc n) 0) (sort_by bigger (sizes_onto [] databases)))
unfolding sort_by load_at weigh
spread-IsSpread databases n =
    let sizes = sizes_onto [] databases in
    let sorted = sort_by bigger sizes in
    let loads = replicate (suc n) 0 in
    let out = spread loads sorted in
    let whole = length-replicate (suc n) 0 in
    let one : (t : Text) → tally (is_of t) sorted ≡ (if any (named t) databases then 1 else 0) =
      λ t. tally-sort_by (is_of t) bigger sizes ∙ tally-sizes_onto t [] databases refl in
    let sums : (i : ℕ)
        → load_at i (loads_after loads sorted) ≡ weigh (λ k. in_group i out (lower k)) databases =
      λ i. omega (
        arith,
        load_at-loads_after i n loads sorted whole (λ t. ground (arith, one t)),
        load_at-replicate i (suc n),
        weigh-sort_by (in_group i out) bigger sizes,
        weigh-sizes_onto (in_group i out) [] databases,
      ) in
    record {
      once = λ t. tally-spread t loads sorted ∙ one t;
      within = spread-within n loads sorted whole;
      balanced = λ m i j h p q. omega (
        arith,
        sums i,
        sums j,
        length-loads_after loads sorted,
        whole,
        spread-IsBalanced m n sorted (All-sort_onto (λ d. d.1 ≤ m) [] sizes tt h) i j
            (omega (arith, p, length-loads_after loads sorted, whole))
            (omega (arith, q, length-loads_after loads sorted, whole)),
      );
    }

-- Whatever databases and number of groups are given (one group where that is 0): each name, in lower case, is in the
-- answer once, and no other is; the groups are among the number asked for; and where no database has more than `m`
-- tables, its names taken together, no group has more than `m` tables above another one.
pub even-IsSpread :
    (databases : List (Text × ℕ)) (groups : ℕ)
    → IsSpread databases (if groups == 0 then 1 else groups) (even databases groups)
unfolding even
even-IsSpread databases zero = spread-IsSpread databases 0
even-IsSpread databases (suc n) = ground (arith, spread-IsSpread databases n)
