-- ===== src/Schedules/Sync/Run.antt =====
-- schedules.py: `_sync_group`, the deletions of `sync`, and `sync`.
use lakefed_ingest.Prelude.{
  ℕ, Option, none, some, Bool, ◌||◌, List, [], ◌∷◌, ◌++◌, map, Text, text_lt, if◌then◌else◌,
  filter_by, sort_by, Result, ok, err,
}
use lakefed_ingest.Schedules.{BadCron}
use lakefed_ingest.Schedules.Settings.{
  Schedule, JobSettings, group_job_settings, drift, Setting, is_group_tag,
}
use lakefed_ingest.Schedules.Sync.{
  lists, resets, deletes, creates, ApiError, Api, Member, Action, created, adopted, updated,
  unchanged, deleted, kept, error, MemberResult, State, mem, call, report, claim, client_delete,
  tagged_of, sorted_jobs, result, fail, get, sync_members,
}

abbrev pub recorded : List Member → List ℕ
recorded [] = []
recorded (m ∷ ms) = elim m.job_id [ none ↦ recorded ms | some t ↦ t ∷ recorded ms ]

unfoldable pub fail_all : List Member → State → State
fail_all [] s = s
fail_all (m ∷ ms) s = fail_all ms (fail m s)

-- The members' results of the one job: the first has its action.
unfoldable pub share_job : ℕ → Action → List Member → State → State
share_job t action [] s = s
share_job t action (m ∷ ms) s = share_job t unchanged ms (report (result m (some t) action) s)

abbrev pub by_collection : Member → Member → Bool
by_collection m n = text_lt m.task_collection n.task_collection

unfoldable pub group_jobs : List (ℕ × Text) → List ℕ
group_jobs jobs = map (λ j. j.0) (filter_by (λ j. is_group_tag (some (j.1))) jobs)

unfoldable pub claim_all : List ℕ → State → State
claim_all [] s = s
claim_all (t ∷ ts) s = claim_all ts (claim t s)

module _ (api : Api) where
  -- What the search does with one candidate's lookup; `later` is the search in the rest.
  unfoldable pub group_found :
      ℕ
      → Result ApiError (Option (ℕ × JobSettings)) × State
      → Result ApiError (Option JobSettings)
      → State
      → Result ApiError (Option (ℕ × JobSettings)) × State
  group_found t later (err e) s = (err e, s)
  group_found t later (ok none) s = later
  group_found t later (ok (some found)) s =
      if is_group_tag found.tag_collection then (ok (some (t, found)), s) else later

  -- The first of the candidates that is a group's job.
  unfoldable pub find_group : List ℕ → State → Result ApiError (Option (ℕ × JobSettings)) × State
  unfolding group_found
  find_group [] s = (ok none, s)
  find_group (t ∷ ts) s =
      let looked = get api t s in group_found t (find_group ts (looked.1)) (looked.0) (looked.1)

  -- The group's job is claimed when it matches.
  unfoldable pub shared : List Member → ℕ → Action → State → State
  unfolding share_job
  shared ms t action s = share_job t action (sort_by by_collection ms) (claim t s)

  -- A call that may have failed, then the job for all.
  unfoldable pub shared_if :
      {A : Type 0} → List Member → ℕ → Action → Result ApiError A → State → State
  unfolding shared fail_all
  shared_if ms t action (err e) s = fail_all ms s
  shared_if ms t action (ok done) s = shared ms t action s

  unfoldable pub group_matched : List Member → ℕ → Bool → List Setting → JobSettings → State → State
  unfolding shared_if
  group_matched ms t known [] desired s = shared ms t (if known then unchanged else adopted) s
  group_matched ms t known (f ∷ fs) desired s =
      shared_if ms t (if known then updated else adopted) (api.reset_job s.history t desired)
        (call (resets t) s)

  unfoldable pub group_made : List Member → Result ApiError ℕ → State → State
  unfolding shared fail_all
  group_made ms (err e) s = fail_all ms s
  group_made ms (ok t) s = shared ms t created s

  unfoldable pub after_find :
      List Member → JobSettings → Result ApiError (Option (ℕ × JobSettings)) × State → State
  unfolding group_matched group_made
  after_find ms desired (err e, s) = fail_all ms s
  after_find ms desired (ok none, s) =
      group_made ms (api.create_job s.history desired) (call creates s)
  after_find ms desired (ok (some (t, found)), s) =
      group_matched ms t (mem t (recorded ms)) (drift found desired) desired s

  unfoldable pub sync_group :
      Schedule
      → Option ℕ
      → Option Text
      → List (ℕ × Text)
      → List Member
      → State
      → Result BadCron State
  unfolding fail_all claim_all group_jobs after_find find_group
  sync_group schedule none owner jobs ms s = ok (fail_all ms (claim_all (group_jobs jobs) s))
  sync_group schedule (some target) owner jobs ms s =
      elim (group_job_settings schedule (map (λ m. m.task_collection) ms) target owner) [
        | err e ↦ err e
        | ok desired ↦
            ok (after_find ms desired (find_group (recorded ms ++ group_jobs (sorted_jobs jobs)) s))
      ]

  unfoldable pub delete_done :
      ℕ → MemberResult → MemberResult → Result ApiError (Unit {0}) → State → State
  delete_done t good bad (err e) s = report bad s
  delete_done t good bad (ok done) s = report good (record s { gone_jobs = t ∷ s.gone_jobs })

  -- A job is deleted; `good` is the result when it is, `bad` when it could not be.
  unfoldable pub delete_job : ℕ → MemberResult → MemberResult → State → State
  unfolding client_delete delete_done
  delete_job t good bad s =
      delete_done t good bad (client_delete (api.delete_job s.history t)) (call (deletes t) s)

  unfoldable pub remove_job : Member → Option ℕ → State → State
  unfolding delete_job
  remove_job m none s = s
  remove_job m (some t) s =
      if mem t s.claimed
      then report (result m (some t) kept) s
      else if mem t s.gone_jobs
      then report (result m (some t) deleted) s
      else delete_job t (result m (some t) deleted) (result m (some t) error) s

  unfoldable pub remove_members : List Member → State → State
  unfolding remove_job
  remove_members [] s = s
  remove_members (m ∷ ms) s = remove_members ms (remove_job m m.job_id s)

  abbrev pub untracked : ℕ → Text → Action → MemberResult
  untracked t tc action = record {
    task_collection = tc;
    job_id = some t;
    action = action;
    member_id = none;
  }

  -- The jobs with the schedule's tag that nobody owns.
  unfoldable pub remove_untracked : List (ℕ × Text) → State → State
  unfolding delete_job
  remove_untracked [] s = s
  remove_untracked ((t, tc) ∷ jobs) s = remove_untracked jobs (
      if mem t s.claimed || mem t s.gone_jobs
      then s
      else delete_job t (untracked t tc deleted) (untracked t tc error) s)

  -- The deletions, after the active members have their jobs.
  unfoldable pub deletions : List Member → List (ℕ × Text) → State → State
  unfolding remove_members remove_untracked
  deletions removed jobs s = remove_untracked (sorted_jobs jobs) (remove_members removed s)

  abbrev pub begin : State
  begin = record { history = lists ∷ []; results = []; claimed = []; taken = []; gone_jobs = [] }

  abbrev pub listing_error : MemberResult
  listing_error = record { task_collection = []; job_id = none; action = error; member_id = none }

  abbrev pub begin_unlisted : State
  begin_unlisted = record begin { results = listing_error ∷ [] }

  -- The active members' part: none when the schedule is being deleted, and one job for all in a check schedule.
  unfoldable pub active_part :
      Schedule
      → Option ℕ
      → Option Text
      → List (ℕ × Text)
      → List Member
      → State
      → Result BadCron State
  unfolding sync_group
  active_part schedule target owner jobs ms s =
      if schedule.deleted
      then ok s
      else if schedule.is_check
      then sync_group schedule target owner jobs ms s
      else sync_members api schedule target owner jobs ms s

  abbrev pub doomed : Schedule → List Member → List Member → List Member
  doomed schedule ms removed = removed ++ (if schedule.deleted then ms else [])

  unfoldable pub sync_listed :
      Schedule
      → Option ℕ
      → Option Text
      → List Member
      → List Member
      → List (ℕ × Text)
      → State
      → Result BadCron State
  unfolding active_part deletions
  sync_listed schedule target owner ms removed jobs s =
      elim (active_part schedule target owner jobs ms s) [
        | err e ↦ err e
        | ok next ↦ ok (deletions (doomed schedule ms removed) jobs next)
      ]

  -- `sync`: without the listing no untracked job is known.
  unfoldable pub sync :
      Schedule → Option ℕ → Option Text → List Member → List Member → Result BadCron State
  unfolding sync_listed tagged_of
  sync schedule target owner ms removed = elim (api.list_jobs []) [
    | err e ↦ sync_listed schedule target owner ms removed [] begin_unlisted
    | ok listed ↦
        sync_listed schedule target owner ms removed (tagged_of schedule.id owner listed) begin
  ]
