-- ===== src/Schedules/Skipped.antt =====
-- schedules.py: SkippedRuns, the cache of a wrapper job's skipped runs. The cache of one job is modelled: the dict of the
-- jobs keeps them apart. Times are milliseconds. The listing of the Jobs API is a parameter, which may raise.
pub mod Covers
pub mod Answers
pub mod Calls
use lakefed_ingest.Prelude.{
  ℕ, zero, suc, ◌+◌, ◌-◌, ◌*◌, Option, none, some, Bool, true, false, not, ◌&&◌, ◌||◌, List, [],
  ◌∷◌, map, Text, codes, text_eq, if◌then◌else◌, ◌==◌, ltb, leb, filter_by, sort_by, Result, ok,
  err,
}

-- A run as the Jobs API gives it; an absent state is the empty text, an absent start 0.
pub record Run : Type 0 where
  pub run_id : ℕ
  pub start_time : ℕ
  pub life_cycle_state : Text
  pub result_state : Text
  pub status_state : Text

abbrev skipped_text : Text
skipped_text = codes "SKIPPED"

unfoldable pub is_skipped : Run → Bool
is_skipped r =
    text_eq r.life_cycle_state skipped_text
    || text_eq r.result_state skipped_text
    || text_eq r.status_state skipped_text

abbrev pub margin_ms : ℕ
margin_ms = 600000

-- What was listed of a job: the runs' starts by their ids, of runs that started from `since` on, up to the time `until`.
pub record Listed : Type 0 where
  pub since : ℕ
  pub until : ℕ
  pub skipped : List (ℕ × ℕ)

-- `d[run] = start`
unfoldable pub add_run : ℕ → ℕ → List (ℕ × ℕ) → List (ℕ × ℕ)
add_run i t [] = (i, t) ∷ []
add_run i t ((j, u) ∷ runs) =
    let later = add_run i t runs in if j == i then (i, t) ∷ runs else (j, u) ∷ later

unfoldable pub update : List (ℕ × ℕ) → List (ℕ × ℕ) → List (ℕ × ℕ)
unfolding add_run
update d [] = d
update d ((i, t) ∷ runs) = update (add_run i t d) runs

-- A run that counts as skipped and has a start.
unfoldable pub shown : Run → Bool
unfolding is_skipped
shown r = is_skipped r && not (r.start_time == 0)

-- `_list`, of what the API answered.
unfoldable pub list_of : List Run → List (ℕ × ℕ)
unfolding update shown
list_of runs = update [] (map (λ r. (r.run_id, r.start_time)) (filter_by shown runs))

abbrev pub listed_of : {E : Type 0} → Result E (List Run) → Result E (List (ℕ × ℕ))
listed_of (err e) = err e
listed_of (ok rs) = ok (list_of rs)

module _ {E : Type 0} (runs : ℕ → ℕ → Option ℕ → Result E (List Run)) (ttl_ms keep_ms : ℕ) where
  -- `runs now since until` is the API's answer at the time `now`.
  abbrev pub listing : ℕ → ℕ → Option ℕ → Result E (List (ℕ × ℕ))
  listing now since until = listed_of (runs now since until)

  unfoldable pub first_listed : ℕ → ℕ → Result E (List (ℕ × ℕ)) → Result E Listed
  first_listed since now (err e) = err e
  first_listed since now (ok found) = ok (record { since = since; until = now; skipped = found })

  unfoldable pub earlier_listed : ℕ → Listed → Result E (List (ℕ × ℕ)) → Result E Listed
  unfolding update
  earlier_listed since l (err e) = err e
  earlier_listed since l (ok found) =
      ok (record l { since = since; skipped = update l.skipped found })

  -- The window that is asked for is listed.
  unfoldable pub opened : ℕ → ℕ → Option Listed → Result E Listed
  unfolding first_listed earlier_listed
  opened since now none = first_listed since now (listing now since none)
  opened since now (some l) =
      if ltb since l.since then earlier_listed since l (listing now since (some l.since)) else ok l

  unfoldable pub newer_listed : ℕ → Listed → Result E (List (ℕ × ℕ)) → Result E Listed
  unfolding update
  newer_listed now l (err e) = err e
  newer_listed now l (ok found) = ok (record l { until = now; skipped = update l.skipped found })

  -- What came since the last listing, if that is old.
  unfoldable pub refreshed : ℕ → Listed → Result E Listed
  unfolding newer_listed
  refreshed now l =
      if leb (l.until + ttl_ms) now
      then newer_listed now l (listing now (l.until - margin_ms) none)
      else ok l

  unfoldable pub pruned : ℕ → Listed → Listed
  pruned now l =
      let floor = now - keep_ms in
      if ltb l.since floor
      then record l { since = floor; skipped = filter_by (λ r. leb floor (r.1)) l.skipped }
      else l

  unfoldable pub asked_runs : ℕ → Listed → List (ℕ × ℕ)
  asked_runs since l = filter_by (λ r. leb since (r.1)) l.skipped

  unfoldable pub answer : ℕ → Listed → List ℕ
  unfolding asked_runs
  answer since l = sort_by (λ t u. ltb t u) (map (λ r. r.1) (asked_runs since l))

  unfoldable pub after_refresh :
      ℕ → ℕ → Listed → Result E Listed → Result E (List ℕ) × Option Listed
  unfolding pruned answer
  after_refresh since now l (err e) = (err e, some l)
  after_refresh since now l (ok r) = (ok (answer since (pruned now r)), some (pruned now r))

  unfoldable pub after_open :
      ℕ → ℕ → Option Listed → Result E Listed → Result E (List ℕ) × Option Listed
  unfolding refreshed after_refresh
  after_open since now o (err e) = (err e, o)
  after_open since now o (ok l) = after_refresh since now l (refreshed now l)

  -- `starts`: what it answers, and the cache it leaves.
  unfoldable pub starts : ℕ → ℕ → Option Listed → Result E (List ℕ) × Option Listed
  unfolding opened after_open
  starts since now o = after_open since now o (opened since now o)
