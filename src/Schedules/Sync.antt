-- ===== src/Schedules/Sync.antt =====
-- schedules.py: `sync`, which makes the wrapper jobs match a schedule. What the Jobs API answers is a parameter, a function of
-- all the calls made before; the texts of errors and the details of results are left out. A job id is positive.
pub mod Kept
pub mod Members
pub mod Run
pub mod Shared
pub mod Deletions
pub mod Safe
pub mod Lost
use lakefed_ingest.Prelude.{
  ℕ, zero, suc, ◌+◌, Option, none, some, Bool, true, false, not, ◌&&◌, ◌||◌, List, [], ◌∷◌, ◌++◌,
  map, Text, codes, text_eq, text_lt, decimal, take, if◌then◌else◌, ◌==◌, ltb, any, filter_by,
  sort_by, Result, ok, err,
}
use lakefed_ingest.Schedules.{BadCron}
use lakefed_ingest.Schedules.Settings.{
  Schedule, JobSettings, job_settings, group_job_settings, drift, Setting, is_group_tag, owner_tag,
}

-- A call of the Jobs API.
pub data Call : Type 0 where
  lists : Call
  gets resets deletes : ℕ → Call
  creates : Call

-- What the API raises: the job is gone ("does not exist"), it is "not found", or something else.
pub data ApiError : Type 0 where
  gone not_found other_error : ApiError

-- A job of the workspace's listing, with its tags.
pub record Listed : Type 0 where
  pub job_id : ℕ
  pub tag_schedule : Option Text
  pub tag_collection : Option Text
  pub tag_owner : Option Text

pub record Api : Type 0 where
  pub list_jobs : List Call → Result ApiError (List Listed)
  pub get_job : List Call → ℕ → Result ApiError JobSettings
  pub create_job : List Call → JobSettings → Result ApiError ℕ
  pub reset_job : List Call → ℕ → JobSettings → Result ApiError (Unit {0})
  pub delete_job : List Call → ℕ → Result ApiError (Unit {0})

pub record Member : Type 0 where
  pub id : ℕ
  pub task_collection : Text
  pub job_id : Option ℕ
  pub offset_minutes : ℕ

pub data Action : Type 0 where
  created adopted updated unchanged deleted kept error : Action

pub record MemberResult : Type 0 where
  pub task_collection : Text
  pub job_id : Option ℕ
  pub action : Action
  pub member_id : Option ℕ

-- The calls made so far, the last first, and the variables of `sync`.
pub record State : Type 0 where
  pub history : List Call
  pub results : List MemberResult
  pub claimed : List ℕ
  pub taken : List ℕ
  pub gone_jobs : List ℕ

abbrev pub mem : ℕ → List ℕ → Bool
mem t ts = any (λ u. u == t) ts

abbrev pub call : Call → State → State
call c s = record s { history = c ∷ s.history }

abbrev pub report : MemberResult → State → State
report r s = record s { results = s.results ++ r ∷ [] }

abbrev pub claim : ℕ → State → State
claim t s = record s { claimed = t ∷ s.claimed }

-- The client's `get`: a job deleted outside the app is none.
unfoldable pub client_get : Result ApiError JobSettings → Result ApiError (Option JobSettings)
client_get (ok found) = ok (some found)
client_get (err gone) = ok none
client_get (err not_found) = ok none
client_get (err other_error) = err other_error

-- The client's `delete`, which takes a job that is gone for deleted.
unfoldable pub client_delete : Result ApiError (Unit {0}) → Result ApiError (Unit {0})
client_delete (ok done) = ok done
client_delete (err gone) = ok tt
client_delete (err not_found) = err not_found
client_delete (err other_error) = err other_error

abbrev is_tag : Option Text → Option Text → Bool
is_tag none t = false
is_tag (some s) none = false
is_tag (some s) (some t) = text_eq s t

abbrev tag_text : Option Text → Text
tag_text none = []
tag_text (some t) = t

-- The client's `tagged`, of the listing: the schedule's jobs of this app, by their ids. A listing has each job once.
unfoldable pub tagged_of : ℕ → Option Text → List Listed → List (ℕ × Text)
tagged_of schedule_id owner [] = []
tagged_of schedule_id owner (j ∷ jobs) =
    let rest = tagged_of schedule_id owner jobs in
    if is_tag j.tag_schedule (some (decimal schedule_id)) && is_tag j.tag_owner (owner_tag owner)
    then (j.job_id, tag_text j.tag_collection) ∷ rest
    else rest

-- The listing sorted by job id, which orders pairs as job ids are distinct.
unfoldable pub sorted_jobs : List (ℕ × Text) → List (ℕ × Text)
sorted_jobs = sort_by (λ a b. ltb (a.0) (b.0))

abbrev pub result : Member → Option ℕ → Action → MemberResult
result m job action = record {
  task_collection = m.task_collection;
  job_id = job;
  action = action;
  member_id = some m.id;
}

abbrev pub fail : Member → State → State
fail m s = report (result m m.job_id error) s

module _ (api : Api) where
  unfoldable pub get : ℕ → State → Result ApiError (Option JobSettings) × State
  unfolding client_get
  get t s = (client_get (api.get_job s.history t), call (gets t) s)

  -- What the search does with one job's lookup; `later` is the search in the rest.
  unfoldable pub adopt_found :
      ℕ
      → Result ApiError (Option (ℕ × JobSettings)) × State
      → Result ApiError (Option JobSettings)
      → State
      → Result ApiError (Option (ℕ × JobSettings)) × State
  adopt_found t later (err e) s = (err e, s)
  adopt_found t later (ok none) s = later
  adopt_found t later (ok (some found)) s = (ok (some (t, found)), s)

  -- The search for a job of the member's collection that nobody has claimed.
  unfoldable pub adopt :
      Text → List (ℕ × Text) → State → Result ApiError (Option (ℕ × JobSettings)) × State
  unfolding get adopt_found
  adopt c [] s = (ok none, s)
  adopt c ((t, tc) ∷ jobs) s =
      let looked = get t s in
      let found = adopt_found t (adopt c jobs (looked.1)) (looked.0) (looked.1) in
      let skipped = adopt c jobs s in
      if text_eq tc (take 255 c) && not (mem t s.claimed) then found else skipped

  -- A new job for the member, if it was made.
  unfoldable pub made : Member → Result ApiError ℕ → State → State
  made m (err e) s = fail m s
  made m (ok t) s =
      report (result m (some t) created) (record s { claimed = t ∷ s.claimed; taken = t ∷ s.taken })

  unfoldable pub reset_done : Member → ℕ → Action → Result ApiError (Unit {0}) → State → State
  reset_done m t action (err e) s = fail m s
  reset_done m t action (ok done) s = report (result m (some t) action) s

  -- An action of `updated` without a reset.
  abbrev pub without_reset : Action → Action
  without_reset updated = unchanged
  without_reset action = action

  -- The job found is the member's; it is reset when it drifted.
  unfoldable pub matched : Member → ℕ → Action → List Setting → JobSettings → State → State
  unfolding reset_done
  matched m t action [] desired s = report (result m (some t) (without_reset action)) s
  matched m t action (f ∷ fs) desired s =
      reset_done m t action (api.reset_job s.history t desired) (call (resets t) s)

  unfoldable pub use_job : Member → ℕ → Action → JobSettings → JobSettings → State → State
  unfolding matched
  use_job m t action found desired s =
      matched m t action (drift found desired) desired
        (record s { claimed = t ∷ s.claimed; taken = t ∷ s.taken })

  -- What follows the search for a tagged job.
  unfoldable pub after_adopt :
      Member → JobSettings → Result ApiError (Option (ℕ × JobSettings)) × State → State
  unfolding use_job made
  after_adopt m desired (err e, s) = fail m s
  after_adopt m desired (ok none, s) = made m (api.create_job s.history desired) (call creates s)
  after_adopt m desired (ok (some (t, found)), s) = use_job m t adopted found desired s

  -- What follows the lookup of the recorded job.
  unfoldable pub after_get :
      Member
      → ℕ
      → List (ℕ × Text)
      → JobSettings
      → Result ApiError (Option JobSettings) × State
      → State
  unfolding use_job after_adopt adopt
  after_get m t jobs desired (err e, s) = fail m s
  after_get m t jobs desired (ok none, s) = after_adopt m desired (adopt m.task_collection jobs s)
  after_get m t jobs desired (ok (some found), s) = use_job m t updated found desired s

  unfoldable pub with_job : Member → Option ℕ → List (ℕ × Text) → JobSettings → State → State
  unfolding after_get after_adopt adopt get
  with_job m none jobs desired s = after_adopt m desired (adopt m.task_collection jobs s)
  with_job m (some t) jobs desired s = after_get m t jobs desired (get t s)

  -- A recorded job that this sync gave to another member is not the member's.
  unfoldable pub own_job : Option ℕ → List ℕ → Option ℕ
  own_job none taken = none
  own_job (some t) taken = if mem t taken then none else some t

  unfoldable pub claim_own : Option ℕ → State → State
  claim_own none s = s
  claim_own (some t) s = claim t s

  -- `claimed.update`: the jobs of a collection, while the target is unknown.
  unfoldable pub claim_tagged : Text → List (ℕ × Text) → State → State
  claim_tagged c [] s = s
  claim_tagged c ((t, tc) ∷ jobs) s =
      claim_tagged c jobs (if text_eq tc (take 255 c) then claim t s else s)

  -- One active member, `m` with its own job, when the target job is known or not; the settings may raise.
  unfoldable pub own_member :
      Schedule → Option ℕ → Option Text → List (ℕ × Text) → Member → State → Result BadCron State
  unfolding with_job claim_own claim_tagged
  own_member schedule none owner jobs m s =
      ok (fail m (claim_tagged m.task_collection jobs (claim_own m.job_id s)))
  own_member schedule (some target) owner jobs m s =
      elim (job_settings schedule m.task_collection m.offset_minutes target owner) [
        | err e ↦ err e
        | ok desired ↦ ok (with_job m m.job_id (sorted_jobs jobs) desired (claim_own m.job_id s))
      ]

  unfoldable pub sync_member :
      Schedule → Option ℕ → Option Text → List (ℕ × Text) → Member → State → Result BadCron State
  unfolding own_member own_job
  sync_member schedule target owner jobs m s =
      own_member schedule target owner jobs (record m { job_id = own_job m.job_id s.taken }) s

  unfoldable pub sync_members :
      Schedule
      → Option ℕ
      → Option Text
      → List (ℕ × Text)
      → List Member
      → State
      → Result BadCron State
  unfolding sync_member
  sync_members schedule target owner jobs [] s = ok s
  sync_members schedule target owner jobs (m ∷ ms) s =
      elim (sync_member schedule target owner jobs m s) [
        | err e ↦ err e
        | ok next ↦ sync_members schedule target owner jobs ms next
      ]
