-- ===== src/Batches/Order.antt =====
-- batch_append.order_work: the order of a run's work items.
use lakefed_ingest.Prelude.{
  append-nil, ℕ, ◌≤◌, Bool, true, false, not, List, [], ◌∷◌, ◌++◌, map, if◌then◌else◌, filter_by,
  All, All-append, All-map, ◌≡◌, ◌∙◌, refl, arith, ap, Bool-cases, inl, inr,
}
use lakefed_ingest.Planner.Plans.{Plan}
use lakefed_ingest.Batches.Planning.{
  Kind, changes, seeds, full_load, kind_eq, Batch, Item, batch, table, order_work,
}

-- Tables already onboarded come first, then the single tables, then the batches that onboard.
abbrev pub rank_of : Kind → ℕ
rank_of changes = 0
rank_of seeds = 2
rank_of full_load = 0

abbrev pub rank : Item → ℕ
rank (batch b) = rank_of b.kind
rank (table p) = 1

abbrev pub IsAscending : List Item → Type 0
IsAscending [] = Unit
IsAscending (w ∷ ws) = All (λ v. rank w ≤ rank v) ws × IsAscending ws

abbrev pub batches_of : Kind → List Item → List Batch
batches_of k [] = []
batches_of k (batch b ∷ ws) = if kind_eq b.kind k then b ∷ batches_of k ws else batches_of k ws
batches_of k (table p ∷ ws) = batches_of k ws

abbrev pub tables_of : List Item → List Plan
tables_of [] = []
tables_of (batch b ∷ ws) = tables_of ws
tables_of (table p ∷ ws) = p ∷ tables_of ws

-- The work items by rank, with the batches of each kind and the single tables in the order they came in.
pub record IsOrdered (batches : List Batch) (plans : List Plan) (work : List Item) : Type 0 where
  pub ascending : IsAscending work
  pub tables : tables_of work ≡ plans
  pub kinds : (k : Kind) → batches_of k work ≡ filter_by (λ b. kind_eq b.kind k) batches

IsAscending-append :
    (n : ℕ) (xs ys : List Item)
    → IsAscending xs
    → IsAscending ys
    → All (λ w. rank w ≤ n) xs
    → All (λ w. n ≤ rank w) ys
    → IsAscending (xs ++ ys)
IsAscending-append n [] ys a b l u = b
IsAscending-append n (x ∷ xs) ys a b l u = (
  All-append (λ v. rank x ≤ rank v) xs ys a.0 (All-map ys (λ v h. omega (arith, h, l.0)) u),
  IsAscending-append n xs ys a.1 b l.1 u,
)

level-IsAscending : (n : ℕ) (ws : List Item) → All (λ w. rank w ≡ n) ws → IsAscending ws
level-IsAscending n [] h = tt
level-IsAscending n (w ∷ ws) h =
    (All-map ws (λ v e. omega (arith, e, h.0)) h.1, level-IsAscending n ws h.1)

first_ranks :
    (bs : List Batch)
    → All (λ w. rank w ≡ 0) (map batch (filter_by (λ b. not (kind_eq b.kind seeds)) bs))
first_ranks [] = tt
first_ranks (b ∷ bs) = elim (Bool-cases (kind_eq b.kind seeds)) [
  | inl last ↦ rw last (first_ranks bs)
  | inr first ↦ rw first (rank_first b.kind first, first_ranks bs)
]
  where
    rank_first : (k : Kind) → kind_eq k seeds ≡ false → rank_of k ≡ 0
    rank_first changes h = refl
    rank_first seeds h = absurd (ground (arith, h))
    rank_first full_load h = refl

last_ranks :
    (bs : List Batch) → All (λ w. rank w ≡ 2) (map batch (filter_by (λ b. kind_eq b.kind seeds) bs))
last_ranks [] = tt
last_ranks (b ∷ bs) = elim (Bool-cases (kind_eq b.kind seeds)) [
  | inl last ↦ rw last (rank_last b.kind last, last_ranks bs)
  | inr first ↦ rw first (last_ranks bs)
]
  where
    rank_last : (k : Kind) → kind_eq k seeds ≡ true → rank_of k ≡ 2
    rank_last changes h = absurd (ground (arith, h))
    rank_last seeds h = refl
    rank_last full_load h = absurd (ground (arith, h))

table_ranks : (ps : List Plan) → All (λ w. rank w ≡ 1) (map table ps)
table_ranks [] = tt
table_ranks (p ∷ ps) = (refl, table_ranks ps)

tables_of-batches :
    (bs : List Batch) (ws : List Item) → tables_of (map batch bs ++ ws) ≡ tables_of ws
tables_of-batches [] ws = refl
tables_of-batches (b ∷ bs) ws = tables_of-batches bs ws

tables_of-tables :
    (ps : List Plan) (ws : List Item) → tables_of (map table ps ++ ws) ≡ ps ++ tables_of ws
tables_of-tables [] ws = refl
tables_of-tables (p ∷ ps) ws = ap (λ (qs : List Plan). p ∷ qs) (tables_of-tables ps ws)

batches_of-tables :
    (k : Kind) (ps : List Plan) (ws : List Item)
    → batches_of k (map table ps ++ ws) ≡ batches_of k ws
batches_of-tables k [] ws = refl
batches_of-tables k (p ∷ ps) ws = batches_of-tables k ps ws

batches_of-batches :
    (k : Kind) (bs : List Batch) (ws : List Item)
    → batches_of k (map batch bs ++ ws) ≡ filter_by (λ b. kind_eq b.kind k) bs ++ batches_of k ws
batches_of-batches k [] ws = refl
batches_of-batches k (b ∷ bs) ws = elim (Bool-cases (kind_eq b.kind k)) [
  | inl its ↦ rw its (ap (λ (cs : List Batch). b ∷ cs) (batches_of-batches k bs ws))
  | inr other ↦ rw other (batches_of-batches k bs ws)
]

filter_by-kept :
    (p q : Batch → Bool) (bs : List Batch)
    → ((b : Batch) → q b ≡ true → p b ≡ true)
    → filter_by q (filter_by p bs) ≡ filter_by q bs
filter_by-kept p q [] h = refl
filter_by-kept p q (b ∷ bs) h = elim (Bool-cases (q b)) [
  | inl its ↦ rw (h b its, its) (ap (λ (cs : List Batch). b ∷ cs) (filter_by-kept p q bs h))
  | inr other ↦ elim (Bool-cases (p b)) [
    | inl passes ↦ rw (passes, other) (filter_by-kept p q bs h)
    | inr fails ↦ rw (fails, other) (filter_by-kept p q bs h)
  ]
]

filter_by-gone :
    (p q : Batch → Bool) (bs : List Batch)
    → ((b : Batch) → p b ≡ true → q b ≡ false)
    → filter_by q (filter_by p bs) ≡ []
filter_by-gone p q [] h = refl
filter_by-gone p q (b ∷ bs) h = elim (Bool-cases (p b)) [
  | inl passes ↦ rw (passes, h b passes) (filter_by-gone p q bs h)
  | inr fails ↦ rw fails (filter_by-gone p q bs h)
]

abbrev of_kind : Kind → Batch → Bool
of_kind k b = kind_eq b.kind k

abbrev not_last : Batch → Bool
not_last b = not (kind_eq b.kind seeds)

not_seeds : (j k : Kind) → kind_eq k seeds ≡ false → kind_eq j k ≡ true → kind_eq j seeds ≡ false
not_seeds changes k h e = refl
not_seeds seeds changes h e = absurd (ground (arith, e))
not_seeds seeds seeds h e = h
not_seeds seeds full_load h e = absurd (ground (arith, e))
not_seeds full_load k h e = refl

seeds_only : (j k : Kind) → kind_eq k seeds ≡ false → kind_eq j seeds ≡ true → kind_eq j k ≡ false
seeds_only j k h e = elim (Bool-cases (kind_eq j k)) [
  | inl same ↦ absurd (ground (arith, not_seeds j k h same, e))
  | inr other ↦ other
]

first_parts :
    (k : Kind) (bs : List Batch)
    → kind_eq k seeds ≡ false
    → filter_by (of_kind k) (filter_by not_last bs)
        ++ filter_by (of_kind k) (filter_by (of_kind seeds) bs)
      ≡ filter_by (of_kind k) bs
first_parts k bs first =
    ap (λ (cs : List Batch). filter_by (of_kind k) (filter_by not_last bs) ++ cs)
      (filter_by-gone (of_kind seeds) (of_kind k) bs (λ b h. seeds_only b.kind k first h))
    ∙ append-nil _
    ∙ filter_by-kept not_last (of_kind k) bs (λ b h. ground (arith, not_seeds b.kind k first h))

kind_parts :
    (k : Kind) (bs : List Batch)
    → filter_by (of_kind k) (filter_by not_last bs)
        ++ filter_by (of_kind k) (filter_by (of_kind seeds) bs)
      ≡ filter_by (of_kind k) bs
kind_parts changes bs = first_parts changes bs refl
kind_parts full_load bs = first_parts full_load bs refl
kind_parts seeds bs =
    ap (λ (cs : List Batch). cs ++ filter_by (of_kind seeds) (filter_by (of_kind seeds) bs))
      (filter_by-gone not_last (of_kind seeds) bs (λ b h. ground (arith, h)))
    ∙ filter_by-kept (of_kind seeds) (of_kind seeds) bs (λ b h. h)

batches_of-map :
    (k : Kind) (bs : List Batch) → batches_of k (map batch bs) ≡ filter_by (of_kind k) bs
batches_of-map k [] = refl
batches_of-map k (b ∷ bs) = elim (Bool-cases (kind_eq b.kind k)) [
  | inl its ↦ rw its (ap (λ (cs : List Batch). b ∷ cs) (batches_of-map k bs))
  | inr other ↦ rw other (batches_of-map k bs)
]

tables_of-map : (bs : List Batch) → tables_of (map batch bs) ≡ []
tables_of-map [] = refl
tables_of-map (b ∷ bs) = tables_of-map bs

-- The work items are the batches and the single tables, each once: first the change and full-load batches, then
-- the single tables, then the seed batches, with the batches of each kind and the tables in the order they came in.
pub order_work-IsOrdered :
    (batches : List Batch) (plans : List Plan) → IsOrdered batches plans (order_work batches plans)
unfolding order_work
order_work-IsOrdered batches plans =
    let first = filter_by not_last batches in
    let last = filter_by (of_kind seeds) batches in
    let rest = map table plans ++ map batch last in
    record {
      ascending =
          IsAscending-append 0 (map batch first) rest (level-IsAscending 0 _ (first_ranks batches))
            (IsAscending-append 1 (map table plans) (map batch last)
              (level-IsAscending 1 _ (table_ranks plans))
              (level-IsAscending 2 _ (last_ranks batches))
              (All-map _ (λ w h. omega (arith, h)) (table_ranks plans))
              (All-map _ (λ w h. omega (arith, h)) (last_ranks batches)))
            (All-map _ (λ w h. omega (arith, h)) (first_ranks batches))
            (All-append (λ w. 0 ≤ rank w) (map table plans) (map batch last)
              (All-map _ (λ w h. omega arith) (table_ranks plans))
              (All-map _ (λ w h. omega arith) (last_ranks batches)));
      tables =
          tables_of-batches first rest
          ∙ tables_of-tables plans (map batch last)
          ∙ ap (λ (ps : List Plan). plans ++ ps) (tables_of-map last)
          ∙ append-nil plans;
      kinds = λ k.
          batches_of-batches k first rest
          ∙ ap (λ (bs : List Batch). filter_by (of_kind k) first ++ bs)
              (batches_of-tables k plans (map batch last) ∙ batches_of-map k last)
          ∙ kind_parts k batches;
    }
