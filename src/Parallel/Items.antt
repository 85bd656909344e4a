-- ===== src/Parallel/Items.antt =====
-- parallel.run_parallel and summarize: one result per item, and their counts. `executor.map` returns the
-- results in the items' order, whatever the threads do; what a worker does to its item is `worker`.
use lakefed_ingest.Prelude.{
  ℕ, suc, ◌%◌, Option, none, some, List, [], ◌∷◌, Text, text_eq, if◌then◌else◌, leb,
}

-- How a call of the worker, or of `set_pool` before it, ends.
pub data Worked : Type 0 where
  returned : Text → Worked
  cancelled : Text → Worked
  raised : Text → Worked

pub data Status : Type 0 where
  good failed stopped : Status

pub record Outcome : Type 0 where
  pub item : ℕ
  pub pool : ℕ
  pub status : Status
  pub detail : Text

abbrev pub status_of : Worked → Status
status_of (returned t) = good
status_of (cancelled t) = stopped
status_of (raised t) = failed

abbrev pub text_of : Worked → Text
text_of (returned t) = t
text_of (cancelled t) = t
text_of (raised t) = t

-- `set_pool(pool)`, then `worker(item)`: `none` is a pool that was set, or no `set_pool`.
abbrev pub attempt : Option Worked → Worked → Worked
attempt none w = w
attempt (some (returned t)) w = w
attempt (some (cancelled t)) w = cancelled t
attempt (some (raised t)) w = raised t

module _ {A : Type 0} (id_of : A → ℕ) (set_pool : ℕ → Option Worked) (worker : A → Worked) where
  -- The items numbered from `idx` on, over `threads` threads.
  unfoldable pub run_from : (threads idx : ℕ) → List A → List Outcome
  run_from threads idx [] = []
  run_from threads idx (x ∷ xs) =
      let pool = idx % threads in
      let worked = attempt (set_pool pool) (worker x) in
      record { item = id_of x; pool = pool; status = status_of worked; detail = text_of worked }
      ∷ run_from threads (suc idx) xs

  unfoldable pub run_parallel : (max_parallel : ℕ) → List A → List Outcome
  unfolding run_from
  run_parallel max_parallel items =
      run_from (if leb max_parallel 1 then 1 else max_parallel) 0 items

pub record Summary : Type 0 where
  pub total : ℕ
  pub ok : ℕ
  pub failed : ℕ
  pub cancelled : ℕ
  pub by_outcome : List (Text × ℕ)

-- `by_outcome[outcome] = by_outcome.get(outcome, 0) + 1`
unfoldable pub count_outcome : Text → List (Text × ℕ) → List (Text × ℕ)
count_outcome t [] = (t, 1) ∷ []
count_outcome t ((u, n) ∷ rest) =
    let later = count_outcome t rest in if text_eq u t then (u, suc n) ∷ rest else (u, n) ∷ later

unfoldable pub tally_result : Outcome → Status → Summary → Summary
unfolding count_outcome
tally_result r good s = record s { ok = suc s.ok; by_outcome = count_outcome r.detail s.by_outcome }
tally_result r failed s = record s { failed = suc s.failed }
tally_result r stopped s = record s { cancelled = suc s.cancelled }

unfoldable pub tally_results : List Outcome → Summary → Summary
unfolding tally_result
tally_results [] s = s
tally_results (r ∷ rs) s = tally_results rs (tally_result r r.status s)

abbrev pub count_all : List Outcome → ℕ
count_all [] = 0
count_all (r ∷ rs) = suc (count_all rs)

unfoldable pub summarize : List Outcome → Summary
unfolding tally_results
summarize results =
    tally_results results
      (record { total = count_all results; ok = 0; failed = 0; cancelled = 0; by_outcome = [] })
