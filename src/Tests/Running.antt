-- ===== src/Tests/Running.antt =====
-- The theorems on batches, cycles, retries and limits at concrete inputs.
use lakefed_ingest.Prelude.{
  All, Result, Option, ◌>>=◌, ℕ, zero, suc, none, some, Bool, true, false, List, [], ◌∷◌, ◌++◌,
  codes, Text, text_eq, ok, ◌==◌, if◌then◌else◌, ◌≡◌, ◌≢◌, refl, arith, OnOk, count, lower, strip,
  text_mem, ◌↔◌,
}
use lakefed_ingest.Control.Sink.{is_append}
use lakefed_ingest.Planner.Plans.{Plan}
use lakefed_ingest.Planner.Route.{Routing}
use lakefed_ingest.Planner.Detect.{UnchangedRow, detect_group}
use lakefed_ingest.Planner.Budget.{apply_seed_budget}
use lakefed_ingest.Planner.Budget.Bounds.{IsBudget, apply_seed_budget-IsBudget}
use lakefed_ingest.Control.{Problem, strategy_name}
use lakefed_ingest.Planner.Retries.{retry_plan}
use lakefed_ingest.Planner.Stamps.{bulk_rows_to_write}
use lakefed_ingest.Planner.Stamps.Skips.{Leaves, bulk_rows_to_write-Leaves}
use lakefed_ingest.Batches.Write.{Written, committed, failed, Landed, found, write_with_bisect}
use lakefed_ingest.Batches.Account.{Accounts, write_with_bisect-Accounts}
use lakefed_ingest.Batches.Chunks.{at_least_one}
use lakefed_ingest.Batches.Planning.{batch_limit, plan_batches, order_work}
use lakefed_ingest.Batches.Whole.{IsBatching, IsInLimits, plan_batches-IsBatching}
use lakefed_ingest.Batches.Order.{IsOrdered, order_work-IsOrdered}
use lakefed_ingest.Cycle.Shares.{Database, Checked, plan_cycle}
use lakefed_ingest.Cycle.Whole.{in_runs, in_results, plan_cycle-tally}
use lakefed_ingest.Cycle.Launch.{Request, Work, Covered, whole, active_collections, decide, admit}
use lakefed_ingest.Cycle.Room.{IsAdmission, admit-IsAdmission, active_collections-decide}
use lakefed_ingest.Check.{check_routed}
use lakefed_ingest.Check.Covers.{IsThorough, check_routed-IsThorough}
use lakefed_ingest.Retry.{Verdict, transient, unknown}
use lakefed_ingest.Retry.Policy.{Policy, new_policy, claim, retry_over}
use lakefed_ingest.Retry.Limits.{
  Inv, Call, claiming, finishing, perform_all, new_policy-perform_all,
}
use lakefed_ingest.Retry.Runner.{Attempt, returns, asks_again, Replanned, planned, run}
use lakefed_ingest.Retry.Ends.{EndsAt, AsksBelow, run-EndsAt}
use lakefed_ingest.Parallel.Limiter.{Move, entering, leaving, setting, moves, new_limiter}
use lakefed_ingest.Parallel.Served.{IsServed, moves-IsServed}
use lakefed_ingest.Parallel.Capped.{IsWithin, enters, leaves, moves-IsWithin}
use lakefed_ingest.Parallel.Items.{Worked, run_parallel}
use lakefed_ingest.Parallel.Items
use lakefed_ingest.Parallel.Counts.{IsReport, run_parallel-IsReport}
use lakefed_ingest.Recovery.Rollups.{Step, adding, flushing, writing, steps, new_queue}
use lakefed_ingest.Recovery.Kept.{is_kept, added, steps-is_kept}
use lakefed_ingest.Strategies.{
  SrcType, Strategy, sqlserver, ct, supported, src_type_name, strategy_text, support_matrix,
}
use lakefed_ingest.Strategies
use lakefed_ingest.Strategies.Support.{cell_of, matrix-supported}
use lakefed_ingest.Tests.Rows.{row, checkpoints, settings, source, members, seed_of, change_of}

-- Member 3 can't be written; the others can.
abbrev write : ℕ → List ℕ → Written
write n group = if count 3 group == 0 then committed else failed (codes "boom")

abbrev landed : ℕ → List ℕ → Landed
landed n group = found (if n == 0 then 1 ∷ [] else [])

write_with_bisect-Accounts_example :
    Accounts
      (λ i. count i (1 ∷ 2 ∷ 3 ∷ 4 ∷ []))
      (write_with_bisect write landed (1 ∷ 2 ∷ 3 ∷ 4 ∷ []))
write_with_bisect-Accounts_example = write_with_bisect-Accounts write landed (1 ∷ 2 ∷ 3 ∷ 4 ∷ [])

abbrev plans : List Plan
plans = seed_of 1 ∷ change_of 2 ∷ change_of 1 ∷ seed_of 4 ∷ seed_of 5 ∷ []

plan_batches-IsBatching_example :
    IsBatching plans (at_least_one (batch_limit 2 (some 8))) (plan_batches plans 2 (some 8))
    × All (IsInLimits 2 (some 8)) ((plan_batches plans 2 (some 8)).0)
plan_batches-IsBatching_example = plan_batches-IsBatching plans 2 (some 8)

order_work-IsOrdered_example :
    IsOrdered
      ((plan_batches plans 2 none).0)
      ((plan_batches plans 2 none).1)
      (order_work ((plan_batches plans 2 none).0) ((plan_batches plans 2 none).1))
order_work-IsOrdered_example =
    order_work-IsOrdered ((plan_batches plans 2 none).0) ((plan_batches plans 2 none).1)

abbrev five : List ℕ
five = 1 ∷ 2 ∷ 3 ∷ 4 ∷ 5 ∷ []

abbrev database : Text → ℕ → ℕ → Database
database name tables first_loads = record {
  collection = codes "a";
  source = codes "s";
  name = name;
  tables = tables;
  first_loads = first_loads;
}

abbrev results : List Checked
results =
    record {
      collection = codes "a";
      weights = database (codes "x") 5 0 ∷ database (codes "y") 1 0 ∷ [];
    }
    ∷ record { collection = codes "b"; weights = database (codes "z") 2 2 ∷ [] }
    ∷ []

abbrev is_y : Database → Bool
is_y d = text_eq d.name (codes "y")

plan_cycle-tally_example : in_runs is_y (plan_cycle results 3) ≡ in_results is_y results
plan_cycle-tally_example = plan_cycle-tally is_y results 3

apply_seed_budget-IsBudget_example : IsBudget plans 2 (apply_seed_budget plans 2)
apply_seed_budget-IsBudget_example = apply_seed_budget-IsBudget plans 2

abbrev retried : ℕ → Result Problem (Option ℕ)
retried run_id = do q ← retry_plan (change_of 1) (checkpoints 1) run_id; ok q.verify_run_id

retried_test : retried 42 ≡ ok (some 42)
unfolding retry_plan is_append text_eq lower strip strategy_name
retried_test = refl

abbrev unchanged : List UnchangedRow
unchanged =
    record {
      control_id = 2;
      cur = 9;
      select_list = none;
      begin = none;
      identity = record { source = codes "s"; sink = codes "t"; key = none };
    }
    ∷ []

bulk_rows_to_write-Leaves_example :
    OnOk
      (Leaves checkpoints (λ i. none) 60 120 unchanged)
      (bulk_rows_to_write unchanged checkpoints (λ i. none) 60 120)
bulk_rows_to_write-Leaves_example =
    bulk_rows_to_write-Leaves unchanged checkpoints (λ i. none) 60 120

abbrev routed : Routing
routed = record { plans = seed_of 3 ∷ []; candidates = members; legacy_rows = [] }

check_routed-IsThorough_example : OnOk (IsThorough settings routed) (
    check_routed settings [] checkpoints
      (λ k. none)
      0
      50
      (detect_group [] source)
      (row 1 ∷ row 2 ∷ row 3 ∷ [])
      routed)
check_routed-IsThorough_example =
    check_routed-IsThorough settings [] checkpoints (λ k. none) 0 50 (detect_group [] source)
      (row 1 ∷ row 2 ∷ row 3 ∷ []) routed

abbrev calls : List Call
calls =
    claiming 1 (some (transient, codes "sql1")) (codes "E") 0
    ∷ claiming 1 (some (transient, codes "sql1")) (codes "E") 1
    ∷ finishing 1 false 1
    ∷ []

new_policy-perform_all_example : Inv (perform_all calls (new_policy 2 3 1))
new_policy-perform_all_example = new_policy-perform_all 2 3 1 calls

granted : (claim 1 (some (unknown, codes "sql1")) (codes "E") 0 (new_policy 2 3 1)).1 ≡ true
unfolding claim new_policy lakefed_ingest.Retry.Policy.decide text_mem
granted = refl

-- A worker that fails once and then returns, on a state that counts the calls of `finished`.
abbrev worker : ℕ → ℕ → ℕ → Attempt ℕ ℕ × ℕ
worker p zero s = (asks_again, s)
worker p (suc attempt) s = (returns p, s)

abbrev replan : ℕ → ℕ → Replanned ℕ ℕ × ℕ
replan p s = (planned (suc p), s)

abbrev counted : Bool → ℕ → ℕ → ℕ
counted b attempt s = suc s

asks_once : (p attempt s : ℕ) → AsksBelow (λ n. n) s 1 attempt (worker p attempt s)
unfolding AsksBelow
asks_once p zero s = (omega arith, refl)
asks_once p (suc attempt) s = refl

run-EndsAt_example : EndsAt (λ n. n) 1 (run worker replan counted 1 7 0)
run-EndsAt_example =
    run-EndsAt worker replan counted (λ n. n) 1 asks_once (λ p s. refl) (λ b attempt s. refl) 7 0

abbrev limits : Text → ℕ
limits s = if text_eq s (codes "sql1") then 2 else 0

abbrev holds : List Move
holds =
    entering (codes "sql1" ∷ codes "sql1" ∷ codes "sql1" ∷ [])
    ∷ entering (codes "sql1" ∷ codes "sql2" ∷ [])
    ∷ leaving 0
    ∷ []

moves-IsWithin_example : IsWithin (moves holds (new_limiter limits))
moves-IsWithin_example = moves-IsWithin limits holds (
  enters (codes "sql1" ∷ codes "sql1" ∷ codes "sql1" ∷ []),
  (enters (codes "sql1" ∷ codes "sql2" ∷ []), (leaves 0, tt)),
)

moves-IsServed_example : IsServed (moves (setting (codes "sql1") 1 ∷ holds) (new_limiter limits))
moves-IsServed_example = moves-IsServed limits (setting (codes "sql1") 1 ∷ holds)

abbrev request : Text → Request
request c = record {
  collection = c;
  work = record { source = codes "s"; name = codes "x" } ∷ [];
  work_id = codes "w";
}

abbrev going : Covered
going = (codes "b", whole) ∷ []

admit-IsAdmission_example :
    IsAdmission going 1 (request (codes "a") ∷ request (codes "b") ∷ request (codes "c") ∷ []) (
      admit going (some 1) 0 (request (codes "a") ∷ request (codes "b") ∷ request (codes "c") ∷ []))
admit-IsAdmission_example =
    admit-IsAdmission going 1 (request (codes "a") ∷ request (codes "b") ∷ request (codes "c") ∷ [])

abbrev no_list : Text → Text → List Work
no_list w c = []

abbrev no_lists : Text → List (Text × Work)
no_lists w = []

active_collections-decide_example :
    decide
      (active_collections no_list no_lists
        ([] ++ record { collection = codes "a"; work = [] } ∷ [])
        [])
      none
      0
      (request (codes "a"))
    ≢ none
active_collections-decide_example =
    active_collections-decide no_list no_lists [] [] (record { collection = codes "a"; work = [] })
      refl none 0 (request (codes "a")) refl

abbrev work_on : ℕ → Worked
work_on i = if i == 2 then Items.raised (codes "boom") else Items.returned (codes "loaded")

run_parallel-IsReport_example :
    IsReport
      (λ i. i)
      (λ p. none)
      work_on
      2
      (1 ∷ 2 ∷ 3 ∷ [])
      (run_parallel (λ i. i) (λ p. none) work_on 2 (1 ∷ 2 ∷ 3 ∷ []))
run_parallel-IsReport_example =
    run_parallel-IsReport (λ i. i) (λ p. none) work_on 2 (1 ∷ 2 ∷ 3 ∷ [])

abbrev queue_steps : List Step
queue_steps = adding 1 (codes "x" ∷ codes "y" ∷ []) ∷ writing 0 false ∷ flushing 2 ∷ []

steps-is_kept_example :
    is_kept (codes "y") (steps queue_steps (new_queue 2 5 0)) ≡ added (codes "y") queue_steps
steps-is_kept_example = steps-is_kept 2 5 0 queue_steps (codes "y")

matrix-supported_example :
    (cell_of sqlserver ct support_matrix ≡ some Strategies.runs)
    ↔ (supported (some (src_type_name sqlserver)) (some (strategy_text ct)) ≡ true)
matrix-supported_example = matrix-supported sqlserver ct
