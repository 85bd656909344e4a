-- ===== src/Recovery.antt =====
-- state_store.py: what a table does next, how a stopped run is recorded, and a run's share of a source.
pub mod Rollups
pub mod Kept
use lakefed_ingest.Prelude.{
  ℕ, ◌/◌, Option, none, some, Bool, true, false, ◌||◌, Text, codes, text_eq, if◌then◌else◌, leb,
  ltb,
}
use lakefed_ingest.Control.{seeding, incremental}

-- `is_reseed_needed`: the checkpoint's version is too old to read changes from.
unfoldable pub is_reseed_needed : Option ℕ → Option ℕ → Bool
is_reseed_needed checkpoint none = true
is_reseed_needed none (some min_valid) = true
is_reseed_needed (some v) (some min_valid) = ltb v min_valid

-- `next_phase`
unfoldable pub next_phase : Text → Text
next_phase current = incremental

pub data Action : Type 0 where
  seed reseed increment : Action

-- `decide_action`
unfoldable pub decide_action : Text → Option ℕ → Option ℕ → Action
unfolding is_reseed_needed
decide_action phase checkpoint min_valid =
    if text_eq phase seeding
    then seed
    else (if is_reseed_needed checkpoint min_valid then reseed else increment)

-- The columns of `databricks_run` that are read.
pub record DatabricksRun : Type 0 where
  pub cancel_requested_at : Option ℕ
  pub life_cycle_state : Option Text
  pub result_state : Option Text

abbrev cancelled : Text
cancelled = codes "cancelled"

abbrev is_text : Option Text → Text → Bool
is_text none t = false
is_text (some s) t = text_eq s t

abbrev was_asked : DatabricksRun → Bool
was_asked r = elim r.cancel_requested_at [ none ↦ false | some t ↦ true ]

-- `run_is_stopping`
unfoldable pub run_is_stopping : Option Text → Option DatabricksRun → Bool
run_is_stopping status none = is_text status cancelled
run_is_stopping status (some r) =
    is_text status cancelled
    || was_asked r
    || is_text r.life_cycle_state (codes "TERMINATING")
    || is_text r.result_state (codes "CANCELED")

-- `failure_status`; whether the error's text reports a cancelled job is `table_retry.is_cancellation`.
unfoldable pub failure_status : (reports_cancel stopping : Bool) → Text
failure_status reports_cancel stopping =
    if stopping || reports_cancel then cancelled else codes "failed"

-- `abandoned_run_status`
unfoldable pub abandoned_run_status : Option DatabricksRun → Text
abandoned_run_status none = codes "failed"
abandoned_run_status (some r) =
    if is_text r.result_state (codes "CANCELED") || was_asked r then cancelled else codes "failed"

-- `max(1, runs.get(key, 1))`
abbrev readers : Option ℕ → ℕ
readers none = 1
readers (some k) = if leb k 1 then 1 else k

-- `source_shares`, for one source.
unfoldable pub source_share : ℕ → Option ℕ → ℕ
source_share limit runs = let share = limit / readers runs in if leb share 1 then 1 else share
