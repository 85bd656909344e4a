-- ===== src/Poller.antt =====
-- The operations app's run_poller.py: how an ingest run whose Databricks run ended is closed. A time is a number of
-- seconds; the texts of reasons and messages are left out. `known` is what the table holds of a Databricks run,
-- `get_run` what the Jobs API answers after earlier questions, and `fails` whether a write raises after the earlier ones.
pub mod Justified
use lakefed_ingest.Prelude.{
  ℕ, ◌+◌, Option, none, some, Bool, true, false, ◌&&◌, ◌||◌, List, [], ◌∷◌, ◌++◌, Text, codes,
  text_eq, text_mem, or_text, if◌then◌else◌, ltb,
}

pub data Status : Type 0 where
  failed cancelled : Status

-- A row of a Databricks run.
pub record StateRow : Type 0 where
  pub life_cycle_state : Text
  pub result_state : Option Text
  pub ended_at : Option ℕ
  pub cancel_requested_at : Option ℕ

pub record Close : Type 0 where
  pub status : Status
  pub finished_at : Option ℕ
  pub databricks_run : ℕ
  pub databricks_state : Text
  pub databricks_result : Option Text

abbrev pub ended_states : List Text
ended_states = codes "TERMINATED" ∷ codes "SKIPPED" ∷ codes "INTERNAL_ERROR" ∷ []

abbrev pub not_found : Text
not_found = codes "NOT_FOUND"

-- 24 hours, and 2 minutes.
abbrev pub not_found_after : ℕ
not_found_after = 86400

abbrev pub cancel_close_after : ℕ
cancel_close_after = 120

abbrev pub cancelled_results : List Text
cancelled_results = codes "CANCELED" ∷ codes "CANCELLED" ∷ []

abbrev pub is_past : Option ℕ → ℕ → ℕ → Bool
is_past none wait now = false
is_past (some t) wait now = ltb (t + wait) now

unfoldable pub should_close : StateRow → Option ℕ → ℕ → Bool
should_close row started now =
    if text_mem row.life_cycle_state ended_states
    then true
    else text_eq row.life_cycle_state not_found && is_past started not_found_after now

abbrev pub is_requested : Option ℕ → Bool
is_requested none = false
is_requested (some t) = true

abbrev pub is_cancelled_result : Option Text → Bool
is_cancelled_result none = false
is_cancelled_result (some r) = text_mem r cancelled_results

unfoldable pub closing_status : StateRow → Status
closing_status row =
    if is_requested row.cancel_requested_at || is_cancelled_result row.result_state
    then cancelled
    else failed

unfoldable pub closure : StateRow → Option ℕ → ℕ → ℕ → Option Close
unfolding should_close closing_status
closure row started run now =
    if should_close row started now
    then some (record {
      status = closing_status row;
      finished_at = row.ended_at;
      databricks_run = run;
      databricks_state = row.life_cycle_state;
      databricks_result = row.result_state;
    })
    else (if is_past row.cancel_requested_at cancel_close_after now
        then some (record {
          status = cancelled;
          finished_at = none;
          databricks_run = run;
          databricks_state = row.life_cycle_state;
          databricks_result = none;
        })
        else none)

-- An ingest run recorded as running, with the Databricks run it ran in.
pub record OpenRun : Type 0 where
  pub run_id : ℕ
  pub job_run : ℕ
  pub started_at : Option ℕ

-- What the Jobs API answers: an error, that there is no such run, or the run's state (empty when it has none), result and end.
pub data Answer : Type 0 where
  unreadable unknown_run : Answer
  run_of : Text → Option Text → Option ℕ → Answer

pub data Write : Type 0 where
  records : ℕ → StateRow → Write
  closes : ℕ → Close → Write

-- The questions asked and the writes made, how many runs were closed, and whether a write raised.
pub record Trace : Type 0 where
  pub asked : List ℕ
  pub writes : List Write
  pub closed : ℕ
  pub raised : Bool

-- The row of a run that the Jobs API does not know.
abbrev pub missing_row : StateRow
missing_row = record {
  life_cycle_state = not_found;
  result_state = none;
  ended_at = none;
  cancel_requested_at = none;
}

abbrev pub row_from_run : Text → Option Text → Option ℕ → StateRow
row_from_run state result ended = record {
  life_cycle_state = or_text (some state) not_found;
  result_state = result;
  ended_at = ended;
  cancel_requested_at = none;
}

module _ (known : ℕ → Option StateRow) (get_run : List ℕ → ℕ → Answer)
    (fails : List Write → Write → Bool) (now : ℕ) where
  unfoldable pub put_write : Write → Trace → Trace
  put_write w t =
      if fails t.writes w
      then record t { raised = true }
      else record t { writes = t.writes ++ (w ∷ []) }

  -- The write of one run's close, which is counted once it is made.
  unfoldable pub put_close : Write → Trace → Trace
  put_close w t =
      if fails t.writes w
      then record t { raised = true }
      else record t { writes = t.writes ++ (w ∷ []); closed = t.closed + 1 }

  -- The rest of a pass of the loop, once the state is known.
  unfoldable pub close_run : OpenRun → StateRow → Trace → Trace
  unfolding closure put_close
  close_run r row t = elim (closure row r.started_at r.job_run now) [
    | none ↦ t
    | some c ↦ put_close (closes r.run_id c) t
  ]

  abbrev asks : ℕ → Trace → Trace
  asks run t = record t { asked = t.asked ++ (run ∷ []) }

  -- `_read_unrecorded` and the rest of the pass, by what the Jobs API answers.
  unfoldable pub answered : OpenRun → Trace → Answer → Trace
  unfolding close_run put_write
  answered r t unreadable = asks r.job_run t
  answered r t unknown_run = close_run r missing_row (asks r.job_run t)
  answered r t (run_of state result ended) =
      let row = row_from_run state result ended in
      let recorded = put_write (records r.job_run row) (asks r.job_run t) in
      if recorded.raised then recorded else close_run r row recorded

  unfoldable pub pass : OpenRun → Trace → Trace
  unfolding close_run answered
  pass r t = elim (known r.job_run) [
    | none ↦ answered r t (get_run t.asked r.job_run)
    | some row ↦ close_run r row t
  ]

  -- `_reconcile`: a write that raises ends it.
  unfoldable pub reconcile : List OpenRun → Trace → Trace
  unfolding pass
  reconcile [] t = t
  reconcile (r ∷ rs) t =
      let rest = reconcile rs (pass r t) in if (pass r t).raised then pass r t else rest
