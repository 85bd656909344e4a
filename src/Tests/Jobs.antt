-- ===== src/Tests/Jobs.antt =====
-- The theorems on schedules and their wrapper jobs at concrete inputs.
use lakefed_ingest.Prelude.{
  ℕ, ◌≤◌, Option, none, some, Bool, true, false, List, [], ◌∷◌, codes, Text, text_eq, text_lt,
  Result, ok, err, OnOk, any, All, tally, if◌then◌else◌, ◌==◌, ltb, leb, ◌&&◌, ◌≡◌, ◌≢◌, refl,
  arith, decimal, sort_by, sym, ◌∙◌, ap, subst, ok-injective, split_commas, strip,
}
use lakefed_ingest.Schedules.{quartz_cron, offsets}
use lakefed_ingest.Schedules.Fires.{FiresAt, quartz_cron-fires}
use lakefed_ingest.Schedules.Offsets.{IsNear, is_named, offsets-IsNear}
use lakefed_ingest.Schedules.Settings.{
  Schedule, JobSettings, settings_at, group_tag, drift, cron_field,
}
use lakefed_ingest.Schedules.Sync.{
  Call, Api, ApiError, other_error, Member, State, deletes, sorted_jobs,
}
use lakefed_ingest.Schedules.Sync
use lakefed_ingest.Schedules.Sync.Run.{sync, after_find, deletions, begin}
use lakefed_ingest.Schedules.Sync.Safe.{Ends, Spared, sync-Spared}
use lakefed_ingest.Schedules.Sync.Deletions.{is_delete_of}
use lakefed_ingest.Schedules.Sync.Lost.{failed_reset-deletes}
use lakefed_ingest.Schedules.Skipped.{Run, shown, starts}
use lakefed_ingest.Schedules.Skipped.Answers.{World, Before, IsTruthful, IsAnswer}
use lakefed_ingest.Schedules.Skipped.Calls.{after, FromApi, starts-IsAnswer}

quartz_cron-fires_example : FiresAt 120 75 (quartz_cron 120 75)
quartz_cron-fires_example = quartz_cron-fires 120 75

quartz_cron_run : quartz_cron 120 75 ≡ ok (codes "0 15 1/2 * * ?")
unfolding quartz_cron decimal
quartz_cron_run = refl

abbrev collections : List Text
collections = codes "b" ∷ codes "a" ∷ codes "c" ∷ []

offsets-IsNear_example :
    All (IsNear 120 100) (offsets collections 120 true 100)
    × (tally (is_named (codes "a")) (offsets collections 120 true 100)
        ≡ tally (λ c. text_eq c (codes "a")) collections)
offsets-IsNear_example = offsets-IsNear collections 120 100 true (codes "a") (omega arith)

abbrev schedule : Bool → Schedule
schedule is_check = record {
  id = 7;
  name = codes "nightly";
  cadence_minutes = 60;
  timezone = codes "UTC";
  paused = false;
  start_option = 0;
  parameters = [];
  notify_emails = none;
  is_check = is_check;
  deleted = false;
  copy_job = none;
}

abbrev member : ℕ → Text → Option ℕ → Member
member id c job = record { id = id; task_collection = c; job_id = job; offset_minutes = 5 }

abbrev listed : ℕ → Text → Sync.Listed
listed job c = record {
  job_id = job;
  tag_schedule = some (codes "7");
  tag_collection = some c;
  tag_owner = some (codes "app");
}

abbrev found_settings : JobSettings
found_settings = settings_at (schedule true) group_tag 3 (some (codes "app")) (codes "old")

-- An API whose resets fail.
abbrev api : Api
api = record {
  list_jobs = λ h. ok (listed 11 (codes "a") ∷ listed 12 (codes "gone") ∷ []);
  get_job = λ h t. ok found_settings;
  create_job = λ h s. ok 20;
  reset_job = λ h t s. err other_error;
  delete_job = λ h t. ok tt;
}

abbrev members : List Member
members = member 1 (codes "a") none ∷ member 2 (codes "b") (some 13) ∷ []

sync-Spared_example :
    Ends
      (λ s. All (Spared s.history) s.results)
      (sync api (schedule false) (some 3) (some (codes "app")) members [])
sync-Spared_example =
    sync-Spared api (schedule false) (some 3) (some (codes "app")) members []
      (refl, (omega arith, (omega arith, tt)))

abbrev wanted : JobSettings
wanted = record found_settings { cron = codes "new" }

drift_run : drift found_settings wanted ≡ cron_field ∷ []
unfolding drift settings_at text_eq decimal sort_by text_lt split_commas strip
drift_run = refl

drifted : drift found_settings wanted ≢ []
drifted e = cc (sym drift_run ∙ e)

failed_reset-deletes_example :
    any (is_delete_of 11) (
      (deletions api []
        ((11, group_tag) ∷ [])
        (after_find api members wanted (ok (some (11, found_settings)), begin api))).history)
    ≡ true
failed_reset-deletes_example =
    failed_reset-deletes api 11 members ((11, group_tag) ∷ []) found_settings wanted (begin api)
      drifted refl (omega arith) refl refl

-- Run 5 started at 1000 and was shown as skipped at once.
abbrev world : World
world i = if i == 5 then some (1000, 1000) else none

abbrev run_five : Run
run_five = record {
  run_id = 5;
  start_time = 1000;
  life_cycle_state = codes "SKIPPED";
  result_state = [];
  status_state = [];
}

abbrev before : Option ℕ → Bool
before none = true
before (some until) = ltb 1000 until

abbrev runs : ℕ → ℕ → Option ℕ → Result ApiError (List Run)
runs now since until =
    ok (if leb 1000 now && (leb since 1000 && before until) then run_five ∷ [] else [])

-- What is asked of the runs at the time `now`.
abbrev AllShown : ℕ → List Run → Type 0
AllShown now rs =
    All
      (λ r.
        shown r ≡ true → (seen : ℕ) × (world r.run_id ≡ some (r.start_time, seen)) × (seen ≤ now))
      rs

five-shown :
    (now since : ℕ) (until : Option ℕ) (b : Bool)
    → (leb 1000 now && (leb since 1000 && before until)) ≡ b
    → AllShown now (if b then run_five ∷ [] else [])
five-shown now since until true h = (λ k. (1000, refl, ground (arith, h)), tt)
five-shown now since until false h = tt

five-listed :
    (now since : ℕ) (until : Option ℕ) (i start seen : ℕ)
    → world i ≡ some (start, seen)
    → seen ≤ now
    → since ≤ start
    → Before start until
    → any
        (λ r. r.run_id == i && shown r)
        (if leb 1000 now && (leb since 1000 && before until) then run_five ∷ [] else [])
      ≡ true
unfolding shown text_eq
five-listed now since none i start seen w a b c = ground (arith, w)
five-listed now since (some until) i start seen w a b c = ground (arith, w)

truthful : IsTruthful runs 60000 100000 world
truthful = record {
  only = λ now since until rs e.
      subst (AllShown now) (ok-injective e)
        (five-shown now since until (leb 1000 now && (leb since 1000 && before until)) refl);
  every = λ now since until rs i start seen e w a b c.
      ap (any (λ r. r.run_id == i && shown r)) (sym (ok-injective e))
      ∙ five-listed now since until i start seen w a b c;
  prompt = λ i start seen w. ground (arith, w);
}

starts-IsAnswer_example :
    OnOk (IsAnswer runs 60000 100000 world 500 80000) (
      (starts runs 60000 100000 500 80000 (after runs 60000 100000 world ((900, 950) ∷ []) none)).0)
    × FromApi runs 60000 100000 world (
        (starts runs 60000 100000 500 80000
          (after runs 60000 100000 world ((900, 950) ∷ []) none)).0)
starts-IsAnswer_example =
    starts-IsAnswer runs 60000 100000 world ((900, 950) ∷ []) 500 80000 truthful
      (omega arith, omega arith) (omega arith)
