-- ===== src/Parallel/Counts.antt =====
-- parallel.run_parallel and summarize: what a summary says of how the workers ended.
use lakefed_ingest.Prelude.{
  ℕ, suc, ◌+◌, ◌%◌, Bool, true, false, Option, none, some, List, [], ◌∷◌, map, length, Text,
  text_eq, text_eq_iff, if◌then◌else◌, leb, ◌≡◌, refl, ap, arith, ◌∙◌,
}
use lakefed_ingest.Parallel.Items.{
  Worked, returned, cancelled, raised, Status, good, failed, stopped, status_of, text_of, attempt,
  Outcome, run_from, run_parallel, Summary, count_outcome, tally_result, tally_results, count_all,
  summarize,
}

-- How often an outcome was counted.
abbrev pub count_of : Text → List (Text × ℕ) → ℕ
count_of t [] = 0
count_of t ((u, n) ∷ rest) = (if text_eq u t then n else 0) + count_of t rest

-- How an item ended, by what setting its pool (if it has one) and its worker did.
abbrev pub did_return : Option Worked → Worked → Bool
did_return none (returned t) = true
did_return (some (returned u)) (returned t) = true
did_return _ _ = false

abbrev pub did_cancel : Option Worked → Worked → Bool
did_cancel none (cancelled t) = true
did_cancel (some (returned u)) (cancelled t) = true
did_cancel (some (cancelled u)) w = true
did_cancel _ _ = false

abbrev pub did_raise : Option Worked → Worked → Bool
did_raise none (raised t) = true
did_raise (some (returned u)) (raised t) = true
did_raise (some (raised u)) w = true
did_raise _ _ = false

abbrev pub did_return_as : Text → Option Worked → Worked → Bool
did_return_as t none (returned u) = text_eq u t
did_return_as t (some (returned v)) (returned u) = text_eq u t
did_return_as t _ _ = false

count_of-count_outcome :
    (t u : Text) (l : List (Text × ℕ))
    → count_of t (count_outcome u l) ≡ (if text_eq u t then 1 else 0) + count_of t l
unfolding count_outcome
count_of-count_outcome t u [] = refl
count_of-count_outcome t u ((v, n) ∷ rest) =
    ground
      (arith, count_of-count_outcome t u rest, text_eq_iff v u, text_eq_iff v t, text_eq_iff u t)

tally_result-total :
    (r : Outcome) (status : Status) (s : Summary) → (tally_result r status s).total ≡ s.total
unfolding tally_result
tally_result-total r good s = refl
tally_result-total r failed s = refl
tally_result-total r stopped s = refl

tally_results-total : (rs : List Outcome) (s : Summary) → (tally_results rs s).total ≡ s.total
unfolding tally_results
tally_results-total [] s = refl
tally_results-total (r ∷ rs) s =
    tally_results-total rs (tally_result r r.status s) ∙ tally_result-total r r.status s

count_all-length : (rs : List Outcome) → count_all rs ≡ length rs
count_all-length [] = refl
count_all-length (r ∷ rs) = ap suc (count_all-length rs)

abbrev outcome_of : ℕ → ℕ → Worked → Outcome
outcome_of item pool w = record {
  item = item;
  pool = pool;
  status = status_of w;
  detail = text_of w;
}

-- One result counts in `m` when the test says so of how its item ended.
abbrev CountsBy : (Summary → ℕ) → (Option Worked → Worked → Bool) → Type 0
CountsBy m test =
    (item pool : ℕ) (p : Option Worked) (w : Worked) (s : Summary)
    → m (tally_result (outcome_of item pool (attempt p w)) (status_of (attempt p w)) s)
      ≡ (if test p w then 1 else 0) + m s

ok-CountsBy : CountsBy (λ s. s.ok) did_return
unfolding tally_result
ok-CountsBy item pool none (returned t) s = omega arith
ok-CountsBy item pool none (cancelled t) s = omega arith
ok-CountsBy item pool none (raised t) s = omega arith
ok-CountsBy item pool (some (returned u)) (returned t) s = omega arith
ok-CountsBy item pool (some (returned u)) (cancelled t) s = omega arith
ok-CountsBy item pool (some (returned u)) (raised t) s = omega arith
ok-CountsBy item pool (some (cancelled u)) w s = omega arith
ok-CountsBy item pool (some (raised u)) w s = omega arith

failed-CountsBy : CountsBy (λ s. s.failed) did_raise
unfolding tally_result
failed-CountsBy item pool none (returned t) s = omega arith
failed-CountsBy item pool none (cancelled t) s = omega arith
failed-CountsBy item pool none (raised t) s = omega arith
failed-CountsBy item pool (some (returned u)) (returned t) s = omega arith
failed-CountsBy item pool (some (returned u)) (cancelled t) s = omega arith
failed-CountsBy item pool (some (returned u)) (raised t) s = omega arith
failed-CountsBy item pool (some (cancelled u)) w s = omega arith
failed-CountsBy item pool (some (raised u)) w s = omega arith

cancelled-CountsBy : CountsBy (λ s. s.cancelled) did_cancel
unfolding tally_result
cancelled-CountsBy item pool none (returned t) s = omega arith
cancelled-CountsBy item pool none (cancelled t) s = omega arith
cancelled-CountsBy item pool none (raised t) s = omega arith
cancelled-CountsBy item pool (some (returned u)) (returned t) s = omega arith
cancelled-CountsBy item pool (some (returned u)) (cancelled t) s = omega arith
cancelled-CountsBy item pool (some (returned u)) (raised t) s = omega arith
cancelled-CountsBy item pool (some (cancelled u)) w s = omega arith
cancelled-CountsBy item pool (some (raised u)) w s = omega arith

by_outcome-CountsBy : (t : Text) → CountsBy (λ s. count_of t s.by_outcome) (did_return_as t)
unfolding tally_result
by_outcome-CountsBy t item pool none (returned u) s = count_of-count_outcome t u s.by_outcome
by_outcome-CountsBy t item pool none (cancelled u) s = omega arith
by_outcome-CountsBy t item pool none (raised u) s = omega arith
by_outcome-CountsBy t item pool (some (returned v)) (returned u) s =
    count_of-count_outcome t u s.by_outcome
by_outcome-CountsBy t item pool (some (returned v)) (cancelled u) s = omega arith
by_outcome-CountsBy t item pool (some (returned v)) (raised u) s = omega arith
by_outcome-CountsBy t item pool (some (cancelled v)) w s = omega arith
by_outcome-CountsBy t item pool (some (raised v)) w s = omega arith

module _ {A : Type 0} (id_of : A → ℕ) (set_pool : ℕ → Option Worked) (worker : A → Worked) where
  -- How many of the items, numbered from `idx` on over `threads` threads, end as the test says.
  abbrev pub ends : (Option Worked → Worked → Bool) → (threads idx : ℕ) → List A → ℕ
  ends test threads idx [] = 0
  ends test threads idx (x ∷ xs) =
      (if test (set_pool (idx % threads)) (worker x) then 1 else 0) + ends test threads (suc idx) xs

  run_from-items :
      (threads idx : ℕ) (xs : List A)
      → map (λ r. r.item) (run_from id_of set_pool worker threads idx xs) ≡ map id_of xs
  unfolding run_from
  run_from-items threads idx [] = refl
  run_from-items threads idx (x ∷ xs) = ap (λ l. id_of x ∷ l) (run_from-items threads (suc idx) xs)

  length-run_from :
      (threads idx : ℕ) (xs : List A)
      → length (run_from id_of set_pool worker threads idx xs) ≡ length xs
  unfolding run_from
  length-run_from threads idx [] = refl
  length-run_from threads idx (x ∷ xs) = ap suc (length-run_from threads (suc idx) xs)

  tally_results-ends :
      (m : Summary → ℕ) (test : Option Worked → Worked → Bool)
      → CountsBy m test
      → (threads idx : ℕ) (xs : List A) (s : Summary)
      → m (tally_results (run_from id_of set_pool worker threads idx xs) s)
        ≡ ends test threads idx xs + m s
  unfolding run_from tally_results
  tally_results-ends m test h threads idx [] s = omega arith
  tally_results-ends m test h threads idx (x ∷ xs) s =
      let p = set_pool (idx % threads) in
      let w = worker x in
      omega (
        arith,
        tally_results-ends m test h threads (suc idx) xs (
            tally_result (outcome_of (id_of x) (idx % threads) (attempt p w))
              (status_of (attempt p w)) s),
        h (id_of x) (idx % threads) p w s,
      )

  abbrev pub threads_of : ℕ → ℕ
  threads_of max_parallel = if leb max_parallel 1 then 1 else max_parallel

  -- What a run over items reports.
  pub record IsReport (max_parallel : ℕ) (items : List A) (results : List Outcome) : Type 0 where
    pub in_order : map (λ r. r.item) results ≡ map id_of items
    pub total : (summarize results).total ≡ length items
    pub ok : (summarize results).ok ≡ ends did_return (threads_of max_parallel) 0 items
    pub failed : (summarize results).failed ≡ ends did_raise (threads_of max_parallel) 0 items
    pub cancelled :
        (summarize results).cancelled ≡ ends did_cancel (threads_of max_parallel) 0 items
    pub by_outcome :
        (t : Text)
        → count_of t (summarize results).by_outcome
          ≡ ends (did_return_as t) (threads_of max_parallel) 0 items

  -- Each item has one result, in the items' order, and the summary counts them all. Its ok, failed and cancelled counts
  -- are the numbers of items that returned, that raised and that were cancelled, an item whose pool raised or was
  -- cancelled included; and each outcome is counted as often as an item returned it.
  pub run_parallel-IsReport :
      (max_parallel : ℕ) (items : List A)
      → IsReport max_parallel items (run_parallel id_of set_pool worker max_parallel items)
  unfolding run_parallel summarize
  run_parallel-IsReport max_parallel items =
      let threads = threads_of max_parallel in
      let results = run_from id_of set_pool worker threads 0 items in
      let start : Summary = record {
        total = count_all results;
        ok = 0;
        failed = 0;
        cancelled = 0;
        by_outcome = [];
      } in
      record {
        in_order = run_from-items threads 0 items;
        total =
            tally_results-total results start
            ∙ count_all-length results
            ∙ length-run_from threads 0 items;
        ok =
            omega
              (arith, tally_results-ends (λ s. s.ok) did_return ok-CountsBy threads 0 items start);
        failed = omega (
          arith,
          tally_results-ends (λ s. s.failed) did_raise failed-CountsBy threads 0 items start,
        );
        cancelled = omega (
          arith,
          tally_results-ends (λ s. s.cancelled) did_cancel cancelled-CountsBy threads 0 items start,
        );
        by_outcome = λ t. omega (
          arith,
          tally_results-ends (λ s. count_of t s.by_outcome) (did_return_as t)
              (by_outcome-CountsBy t) threads 0 items start,
        );
      }
