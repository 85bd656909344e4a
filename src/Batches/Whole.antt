-- ===== src/Batches/Whole.antt =====
-- batch_append.plan_batches: the plans in the batches and in the rest, and the batches' sizes.
use lakefed_ingest.Prelude.{
  All-map, ℕ, ◌+◌, ◌≤◌, Option, none, some, Bool, true, false, List, [], ◌∷◌, ◌++◌, Text,
  if◌then◌else◌, leb, length, map, count, count-map-append, arith, ◌≡◌, refl, All, All-append, ap,
  leb→le,
}
use lakefed_ingest.Planner.Plans.{Plan, sink_key}
use lakefed_ingest.Batches.Chunks.{even_chunks, even_chunks-concat, concat, at_least_one}
use lakefed_ingest.Batches.Planning.{
  Kind, Batch, Group, add_to_groups, Grouped, place, group_plans, batch_kind, place_chunk,
  place_chunks, place_groups, batch_limit, plan_batches,
}

unfoldable pub ids : List Plan → List ℕ
ids = map (λ p. p.cfg.id)

-- How often a table stands in the groups, in the batches, and in the work items.
in_groups : ℕ → List Group → ℕ
in_groups i [] = 0
in_groups i (g ∷ gs) = count i (ids g.members) + in_groups i gs

pub in_batches : ℕ → List Batch → ℕ
unfolding ids
in_batches i [] = 0
in_batches i (b ∷ bs) = count i (ids b.members) + in_batches i bs

ids-append :
    (i : ℕ) (xs ys : List Plan) → count i (ids (xs ++ ys)) ≡ count i (ids xs) + count i (ids ys)
unfolding ids
ids-append i xs ys = count-map-append i (λ p. p.cfg.id) xs ys

in_batches-append :
    (i : ℕ) (xs ys : List Batch) → in_batches i (xs ++ ys) ≡ in_batches i xs + in_batches i ys
unfolding in_batches
in_batches-append i [] ys = omega arith
in_batches-append i (x ∷ xs) ys = omega (arith, in_batches-append i xs ys)

add_to_groups-count :
    (i : ℕ) (sink : List Text) (kind : Kind) (p : Plan) (gs : List Group)
    → in_groups i (add_to_groups sink kind p gs) ≡ count i (ids (p ∷ [])) + in_groups i gs
unfolding add_to_groups in_groups
add_to_groups-count i sink kind p [] = omega arith
add_to_groups-count i sink kind p (g ∷ gs) =
    ground (arith, add_to_groups-count i sink kind p gs, ids-append i g.members (p ∷ []))

place-count :
    (i : ℕ) (p : Plan) (kind : Option Kind) (g : Grouped)
    → in_groups i (place p kind g).groups + count i (ids (place p kind g).rest)
      ≡ count i (ids (p ∷ [])) + in_groups i g.groups + count i (ids g.rest)
unfolding place
place-count i p none g = omega (arith, ids-append i g.rest (p ∷ []))
place-count i p (some kind) g =
    omega (arith, add_to_groups-count i (sink_key p.cfg) kind p g.groups)

group_plans-count :
    (i : ℕ) (ps : List Plan) (g : Grouped)
    → in_groups i (group_plans ps g).groups + count i (ids (group_plans ps g).rest)
      ≡ count i (ids ps) + in_groups i g.groups + count i (ids g.rest)
unfolding group_plans
group_plans-count i [] g = ground (arith, ids-append i [] [])
group_plans-count i (p ∷ ps) g = omega (
  arith,
  group_plans-count i ps (place p (batch_kind p) g),
  place-count i p (batch_kind p) g,
  ids-append i (p ∷ []) ps,
)

-- The tables of some batches and plans.
abbrev pub held : ℕ → List Batch × List Plan → ℕ
held i made = in_batches i (made.0) + count i (ids (made.1))

place_chunk-count :
    (i : ℕ) (kind : Kind) (chunk : List Plan) (made : List Batch × List Plan)
    → held i (place_chunk kind chunk made) ≡ held i made + count i (ids chunk)
unfolding place_chunk in_batches
place_chunk-count i kind chunk made = ground (
  arith,
  in_batches-append i (made.0) (record { kind = kind; members = chunk } ∷ []),
  ids-append i (made.1) chunk,
)

place_chunks-count :
    (i : ℕ) (kind : Kind) (chunks : List (List Plan)) (made : List Batch × List Plan)
    → held i (place_chunks kind chunks made) ≡ held i made + count i (ids (concat chunks))
unfolding place_chunks concat ids
place_chunks-count i kind [] made = omega arith
place_chunks-count i kind (chunk ∷ chunks) made = omega (
  arith,
  place_chunks-count i kind chunks (place_chunk kind chunk made),
  place_chunk-count i kind chunk made,
  ids-append i chunk (concat chunks),
)

place_groups-count :
    (i size : ℕ) (gs : List Group) (made : List Batch × List Plan)
    → held i (place_groups size gs made) ≡ held i made + in_groups i gs
unfolding place_groups in_groups
place_groups-count i size [] made = omega arith
place_groups-count i size (g ∷ gs) made = omega (
  arith,
  place_groups-count i size gs (place_chunks g.kind (even_chunks g.members size) made),
  place_chunks-count i g.kind (even_chunks g.members size) made,
  ap (λ ps. count i (ids ps)) (even_chunks-concat g.members size).0,
)

-- A batch of the run: several members, and no more than the limit.
pub record IsBatch (size : ℕ) (b : Batch) : Type 0 where
  pub several : 2 ≤ length b.members
  pub bounded : length b.members ≤ size

either-All :
    (size : ℕ) (b : Bool) (p q : List Batch × List Plan)
    → (b ≡ true → All (IsBatch size) (p.0))
    → All (IsBatch size) (q.0)
    → All (IsBatch size) ((if b then p else q).0)
either-All size true p q h k = h refl
either-All size false p q h k = k

place_chunk-All :
    (size : ℕ) (kind : Kind) (chunk : List Plan) (made : List Batch × List Plan)
    → length chunk ≤ size
    → All (IsBatch size) (made.0)
    → All (IsBatch size) ((place_chunk kind chunk made).0)
unfolding place_chunk
place_chunk-All size kind chunk made h k =
    either-All size (leb 2 (length chunk))
      (made.0 ++ record { kind = kind; members = chunk } ∷ [], made.1) (made.0, made.1 ++ chunk)
      (λ e.
        All-append (IsBatch size) (made.0) (record { kind = kind; members = chunk } ∷ []) k
          (record { several = leb→le 2 (length chunk) e; bounded = h }, tt))
      k

place_chunks-All :
    (size : ℕ) (kind : Kind) (chunks : List (List Plan)) (made : List Batch × List Plan)
    → All (λ c. length c ≤ size) chunks
    → All (IsBatch size) (made.0)
    → All (IsBatch size) ((place_chunks kind chunks made).0)
unfolding place_chunks
place_chunks-All size kind [] made h k = k
place_chunks-All size kind (chunk ∷ chunks) made h k =
    place_chunks-All size kind chunks (place_chunk kind chunk made) h.1
      (place_chunk-All size kind chunk made h.0 k)

place_groups-All :
    (size : ℕ) (gs : List Group) (made : List Batch × List Plan)
    → All (IsBatch (at_least_one size)) (made.0)
    → All (IsBatch (at_least_one size)) ((place_groups size gs made).0)
unfolding place_groups
place_groups-All size [] made k = k
place_groups-All size (g ∷ gs) made k =
    place_groups-All size gs (place_chunks g.kind (even_chunks g.members size) made) (
      place_chunks-All (at_least_one size) g.kind (even_chunks g.members size) made
        (even_chunks-concat g.members size).1 k)

either-held :
    (i n : ℕ) (b : Bool) (p q : List Batch × List Plan)
    → held i p ≡ n
    → held i q ≡ n
    → held i (if b then p else q) ≡ n
either-held i n true p q h k = h
either-held i n false p q h k = k

-- What batching promises of the plans it is given.
pub record IsBatching (plans : List Plan) (size : ℕ) (made : List Batch × List Plan) : Type 0 where
  pub whole : (i : ℕ) → held i made ≡ count i (ids plans)
  pub sized : All (IsBatch size) (made.0)

-- No batch has more members than the batch size, nor than the reads that may run at once, where they are bounded.
abbrev pub IsInLimits : ℕ → Option ℕ → Batch → Type 0
IsInLimits batch_size none b = length b.members ≤ batch_size
IsInLimits batch_size (some reads) b = (length b.members ≤ batch_size) × (length b.members ≤ reads)

IsBatch-IsInLimits :
    (batch_size : ℕ) (max_reads : Option ℕ) (b : Batch)
    → IsBatch (at_least_one (batch_limit batch_size max_reads)) b
    → IsInLimits batch_size max_reads b
IsBatch-IsInLimits batch_size none b h = ground (arith, h.several, h.bounded)
IsBatch-IsInLimits batch_size (some reads) b h =
    (ground (arith, h.several, h.bounded), ground (arith, h.several, h.bounded))

limit-IsBatching :
    (plans : List Plan) (batch_size : ℕ) (max_reads : Option ℕ)
    → IsBatching plans
        (at_least_one (batch_limit batch_size max_reads))
        (plan_batches plans batch_size max_reads)
unfolding plan_batches in_batches in_groups
limit-IsBatching plans batch_size max_reads =
    let size = batch_limit batch_size max_reads in
    let grouped = group_plans plans (record { groups = []; rest = [] }) in
    let made = place_groups size grouped.groups ([], grouped.rest) in
    record {
      whole = λ i.
          either-held i (count i (ids plans)) (leb size 1) ([], plans) made (omega arith)
            (omega (
              arith,
              place_groups-count i size grouped.groups ([], grouped.rest),
              group_plans-count i plans (record { groups = []; rest = [] }),
            ));
      sized =
          either-All (at_least_one size) (leb size 1) ([], plans) made (λ e. tt)
            (place_groups-All size grouped.groups ([], grouped.rest) tt);
    }

-- Each table is planned once: as often as a table stands among the plans, it stands in a batch or in the rest. A
-- batch has two members at least, and neither more than the batch size nor than the reads that may run at once.
pub plan_batches-IsBatching :
    (plans : List Plan) (batch_size : ℕ) (max_reads : Option ℕ)
    → IsBatching plans
        (at_least_one (batch_limit batch_size max_reads))
        (plan_batches plans batch_size max_reads)
      × All (IsInLimits batch_size max_reads) ((plan_batches plans batch_size max_reads).0)
plan_batches-IsBatching plans batch_size max_reads =
    let made = limit-IsBatching plans batch_size max_reads in
    (made, All-map _ (IsBatch-IsInLimits batch_size max_reads) made.sized)
