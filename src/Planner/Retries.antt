-- ===== src/Planner/Retries.antt =====
-- planner.retry_plan: the next attempt of a table whose attempt failed.
use lakefed_ingest.Prelude.{
  ℕ, Option, none, some, Bool, true, false, ◌&&◌, Result, ok, ◌>>=◌, codes, text_eq,
}
use lakefed_ingest.Control.{Checkpoint, Problem, strategy_name}
use lakefed_ingest.Control.Sink.{is_append}
use lakefed_ingest.Planner.Plans.{Plan, pending, plan}

abbrev has_pending : Option Checkpoint → Bool
has_pending none = false
has_pending (some cp) = elim cp.pending_run_id [ none ↦ false | some run ↦ true ]

-- `append`: the row is in append mode; `waits`: it is a CT row whose checkpoint has a pending append.
unfoldable pub next_attempt : (append waits : Bool) → Plan → Option Checkpoint → ℕ → Plan
next_attempt false waits p cp run_id = record p { cp = cp }
next_attempt true true p cp run_id = plan p.cfg pending cp
next_attempt true false p cp run_id = record p { cp = cp; verify_run_id = some run_id }

unfoldable pub retry_plan : Plan → Option Checkpoint → ℕ → Result Problem Plan
unfolding next_attempt
retry_plan p cp run_id = do
  append ← is_append p.cfg
  ok (
      next_attempt append (text_eq (strategy_name p.cfg) (codes "ct") && has_pending cp) p cp
        run_id)
