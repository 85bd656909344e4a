-- ===== src/Tests/Polling.antt =====
-- Tests of the poller's closes, and the witness of its theorem.
use lakefed_ingest.Prelude.{
  ℕ, Option, none, some, false, List, [], ◌∷◌, codes, ◌≡◌, refl, ◌==◌, Bool, if◌then◌else◌,
  text_mem, text_eq,
}
use lakefed_ingest.Poller.{
  StateRow, Answer, unreadable, unknown_run, run_of, Write, OpenRun, Trace, should_close,
  closing_status, closure, put_write, put_close, close_run, answered, pass, reconcile,
}
use lakefed_ingest.Poller.Justified.{IsSound, reconcile-IsSound}

abbrev known : ℕ → Option StateRow
known run =
    if run == 7
    then some (record {
      life_cycle_state = codes "RUNNING";
      result_state = none;
      ended_at = none;
      cancel_requested_at = some 99000;
    })
    else none

abbrev get_run : List ℕ → ℕ → Answer
get_run asked run =
    if run == 8
    then run_of (codes "TERMINATED") (some (codes "FAILED")) (some 99500)
    else (if run == 9 then unknown_run else unreadable)

abbrev fails : List Write → Write → Bool
fails earlier w = false

abbrev open_run : ℕ → OpenRun
open_run run = record { run_id = run; job_run = run; started_at = some 50000 }

abbrev opens : List OpenRun
opens = open_run 7 ∷ open_run 8 ∷ open_run 9 ∷ open_run 10 ∷ []

abbrev no_writes : Trace
no_writes = record { asked = []; writes = []; closed = 0; raised = false }

closed_test : (reconcile known get_run fails 100000 opens no_writes).closed ≡ 2
unfolding reconcile pass answered close_run closure should_close closing_status put_write put_close
    text_mem text_eq
closed_test = refl

reconcile-IsSound_example :
    IsSound known get_run fails 100000 opens (reconcile known get_run fails 100000 opens no_writes)
reconcile-IsSound_example = reconcile-IsSound known get_run fails 100000 opens
