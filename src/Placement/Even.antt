-- ===== src/Placement/Even.antt =====
-- placement.even: the loads of the groups in its loop.
use lakefed_ingest.Prelude.{
  ℕ, zero, suc, ◌+◌, ◌≤◌, ◌<◌, List, [], ◌∷◌, Text, if◌then◌else◌, ltb, ◌==◌, length, All, ◌≡◌,
  refl, arith, Bool-cases, ◌⊎◌, inl, inr,
}
use lakefed_ingest.Placement.{replicate, lightest_from, lightest, add_at, spread}

-- The load of a group; 0 out of range.
unfoldable pub load_at : ℕ → List ℕ → ℕ
load_at i [] = 0
load_at zero (load ∷ loads) = load
load_at (suc i) (load ∷ loads) = load_at i loads

-- What the search for the least load returns: the best so far, or one of the list, and no load is less.
record Least (best least i : ℕ) (loads : List ℕ) (r v : ℕ) : Type 0 where
  found :
      ((r ≡ best) × (v ≡ least))
      ⊎ ((k : ℕ) × (r ≡ i + k) × (k < length loads) × (v ≡ load_at k loads))
  below : v ≤ least
  least_of : (j : ℕ) → j < length loads → v ≤ load_at j loads

least_rest :
    (v load j : ℕ) (loads : List ℕ)
    → v ≤ load
    → ((k : ℕ) → k < length loads → v ≤ load_at k loads)
    → j < suc (length loads)
    → v ≤ load_at j (load ∷ loads)
unfolding load_at
least_rest v load zero loads h k p = h
least_rest v load (suc j) loads h k p = k j (omega arith)

lightest_from-Least :
    (best least i : ℕ) (loads : List ℕ)
    → (v : ℕ) × Least best least i loads (lightest_from best least i loads) v
unfolding lightest_from load_at
lightest_from-Least best least i [] = (
  least,
  record { found = inl (refl, refl); below = omega arith; least_of = λ j h. absurd (omega arith) },
)
lightest_from-Least best least i (load ∷ loads) = elim (Bool-cases (ltb load least)) [
  | inl less ↦
      let (v, l) = lightest_from-Least i load (i + 1) loads in
      rw less (
        v,
        record {
          found = elim l.found [
            | inl p ↦ inr (0, omega (arith, p.0), omega arith, p.1)
            | inr (k, p, g, q) ↦ inr (suc k, omega (arith, p), omega (arith, g), q)
          ];
          below = ground (arith, less, l.below);
          least_of = λ j h. least_rest v load j loads l.below l.least_of h;
        },
      )
  | inr more ↦
      let (v, l) = lightest_from-Least best least (i + 1) loads in
      rw more (
        v,
        record {
          found = elim l.found [
            | inl p ↦ inl p
            | inr (k, p, g, q) ↦ inr (suc k, omega (arith, p), omega (arith, g), q)
          ];
          below = l.below;
          least_of = λ j h. least_rest v load j loads (ground (arith, more, l.below)) l.least_of h;
        },
      )
]

-- The index found is in range, and its load the least.
lightest-Least :
    (load : ℕ) (loads : List ℕ)
    → (lightest (load ∷ loads) < suc (length loads))
      × ((j : ℕ)
          → j < suc (length loads)
          → load_at (lightest (load ∷ loads)) (load ∷ loads) ≤ load_at j (load ∷ loads))
unfolding lightest load_at
lightest-Least load loads =
    let (v, l) = lightest_from-Least 0 load 1 loads in
    elim l.found [
      | inl (p, q) ↦ rw p (
        omega arith,
        λ j h.
            least_rest load load j loads (omega arith) (λ k g. omega (arith, q, l.least_of k g)) h,
      )
      | inr (k, p, g, q) ↦
          let e : lightest_from 0 load 1 loads ≡ suc k = omega (arith, p) in
          rw e (
            omega (arith, g),
            λ j h.
                least_rest (load_at k loads) load j loads (omega (arith, q, l.below))
                  (λ m f. omega (arith, q, l.least_of m f)) h,
          )
    ]

pub lightest-inside :
    (n : ℕ) (loads : List ℕ) → length loads ≡ suc n → lightest loads < length loads
lightest-inside n [] e = absurd (omega (arith, e))
lightest-inside n (load ∷ loads) e = (lightest-Least load loads).0

pub length-add_at : (i n : ℕ) (loads : List ℕ) → length (add_at i n loads) ≡ length loads
unfolding add_at
length-add_at i n [] = refl
length-add_at zero n (load ∷ loads) = refl
length-add_at (suc i) n (load ∷ loads) = omega (arith, length-add_at i n loads)

pub load_at-add_at :
    (j i n : ℕ) (loads : List ℕ)
    → i < length loads
    → load_at j (add_at i n loads) ≡ (if i == j then load_at j loads + n else load_at j loads)
unfolding load_at add_at
load_at-add_at j i n [] h = absurd (omega arith)
load_at-add_at zero zero n (load ∷ loads) h = refl
load_at-add_at (suc j) zero n (load ∷ loads) h = ground arith
load_at-add_at zero (suc i) n (load ∷ loads) h = ground arith
load_at-add_at (suc j) (suc i) n (load ∷ loads) h = ground (arith, load_at-add_at j i n loads)

-- No load is more than `m` above another one.
abbrev pub IsBalanced : ℕ → List ℕ → Type 0
IsBalanced m loads =
    (i j : ℕ) → i < length loads → j < length loads → load_at i loads ≤ load_at j loads + m

-- A database joins the least load, so the loads stay within the biggest database of each other.
add_at-IsBalanced :
    (m n load : ℕ) (loads : List ℕ)
    → n ≤ m
    → IsBalanced m (load ∷ loads)
    → IsBalanced m (add_at (lightest (load ∷ loads)) n (load ∷ loads))
add_at-IsBalanced m n load loads h b i j p q =
    let (inside, least) = lightest-Least load loads in
    let k = lightest (load ∷ loads) in
    let size = length-add_at k n (load ∷ loads) in
    let i_in : i < suc (length loads) = omega (arith, p, size) in
    let j_in : j < suc (length loads) = omega (arith, q, size) in
    ground (
      arith,
      load_at-add_at i k n (load ∷ loads) inside,
      load_at-add_at j k n (load ∷ loads) inside,
      b i j i_in j_in,
      least j j_in,
      least i i_in,
    )

-- The loads when the loop ends.
unfoldable pub loads_after : List ℕ → List (Text × ℕ) → List ℕ
loads_after loads [] = loads
loads_after loads ((name, tables) ∷ databases) =
    loads_after (add_at (lightest loads) tables loads) databases

pub length-loads_after :
    (loads : List ℕ) (databases : List (Text × ℕ))
    → length (loads_after loads databases) ≡ length loads
unfolding loads_after
length-loads_after loads [] = refl
length-loads_after loads ((name, tables) ∷ databases) = omega (
  arith,
  length-loads_after (add_at (lightest loads) tables loads) databases,
  length-add_at (lightest loads) tables loads,
)

of_nonempty :
    (m : ℕ) (loads : List ℕ) (n : ℕ) (databases : List (Text × ℕ))
    → length loads ≡ suc n
    → IsBalanced m loads
    → ((l : ℕ) (ls : List ℕ)
        → IsBalanced m (l ∷ ls)
        → IsBalanced m (loads_after (l ∷ ls) databases))
    → IsBalanced m (loads_after loads databases)
of_nonempty m [] n databases e b ih = absurd (omega (arith, e))
of_nonempty m (l ∷ ls) n databases e b ih = ih l ls b

pub loads_after-IsBalanced :
    (m load : ℕ) (loads : List ℕ) (databases : List (Text × ℕ))
    → All (λ d. d.1 ≤ m) databases
    → IsBalanced m (load ∷ loads)
    → IsBalanced m (loads_after (load ∷ loads) databases)
unfolding loads_after
loads_after-IsBalanced m load loads [] h b = b
loads_after-IsBalanced m load loads ((name, tables) ∷ databases) h b =
    of_nonempty m (add_at (lightest (load ∷ loads)) tables (load ∷ loads)) (length loads) databases
      (length-add_at (lightest (load ∷ loads)) tables (load ∷ loads))
      (add_at-IsBalanced m tables load loads h.0 b)
      (λ l ls. loads_after-IsBalanced m l ls databases h.1)

pub spread-within :
    (n : ℕ) (loads : List ℕ) (databases : List (Text × ℕ))
    → length loads ≡ suc n
    → All (λ p. p.1 < suc n) (spread loads databases)
unfolding spread
spread-within n loads [] e = tt
spread-within n [] (d ∷ databases) e = absurd (omega (arith, e))
spread-within n (load ∷ loads) ((name, tables) ∷ databases) e = (
  omega (arith, e, (lightest-Least load loads).0),
  spread-within n (add_at (lightest (load ∷ loads)) tables (load ∷ loads)) databases
      (omega (arith, e, length-add_at (lightest (load ∷ loads)) tables (load ∷ loads))),
)

pub length-replicate : (n x : ℕ) → length (replicate n x) ≡ n
unfolding replicate
length-replicate zero x = refl
length-replicate (suc n) x = omega (arith, length-replicate n x)

pub load_at-replicate : (i n : ℕ) → load_at i (replicate n 0) ≡ 0
unfolding load_at replicate
load_at-replicate i zero = refl
load_at-replicate zero (suc n) = refl
load_at-replicate (suc i) (suc n) = load_at-replicate i n

-- The loads of a loop that begins with empty groups.
pub spread-IsBalanced :
    (m n : ℕ) (databases : List (Text × ℕ))
    → All (λ d. d.1 ≤ m) databases
    → IsBalanced m (loads_after (replicate (suc n) 0) databases)
unfolding replicate
spread-IsBalanced m n databases h =
    loads_after-IsBalanced m 0 (replicate n 0) databases h
      (λ i j p q. omega (arith, load_at-replicate i (suc n)))
