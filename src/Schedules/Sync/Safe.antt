-- ===== src/Schedules/Sync/Safe.antt =====
-- schedules.sync, whole: the active members' part, the deletions, and the jobs that its results keep.
use lakefed_ingest.Prelude.{
  ℕ, ◌<◌, ◌%◌, Option, none, some, Bool, true, false, List, [], ◌∷◌, ◌++◌, map, Text, any, All,
  All-map, if◌then◌else◌, Result, ok, err, Result-cases, ◌≡◌, refl, lt→ltb, arith, inl, inr,
}
use native.Mathlib.Nat.{mod-lt}
use lakefed_ingest.Schedules.{BadCron, is_cadence, quartz_cron, start_minute}
use lakefed_ingest.Schedules.Settings.{Schedule, JobSettings, job_settings, group_job_settings}
use lakefed_ingest.Schedules.Sync.{
  Call, Api, Member, MemberResult, State, own_job, sync_member, sync_members, own_member,
  sorted_jobs, tagged_of,
}
use lakefed_ingest.Schedules.Sync.Kept.{IsActive, is_kept, has_job, holds}
use lakefed_ingest.Schedules.Sync.Members.{own_member-IsActive}
use lakefed_ingest.Schedules.Sync.Shared.{
  fail_all-IsActive, claim_all-IsActive, after_find-IsActive, find_group-IsActive,
}
use lakefed_ingest.Schedules.Sync.Deletions.{
  is_delete_of, IsSafe, of_active, remove_members-IsSafe, remove_untracked-IsSafe,
}
use lakefed_ingest.Schedules.Sync.Run.{
  recorded, group_jobs, claim_all, find_group, sync_group, remove_members, deletions, begin,
  begin_unlisted, active_part, doomed, sync_listed, sync,
}

-- The settings of a wrapper job can be made.
job_settings-ok :
    (s : Schedule) (c : Text) (offset target : ℕ) (owner : Option Text)
    → is_cadence s.cadence_minutes ≡ true
    → offset < s.cadence_minutes
    → (made : JobSettings) × (job_settings s c offset target owner ≡ ok made)
unfolding job_settings quartz_cron
job_settings-ok s c offset target owner h p = rw (h, lt→ltb offset s.cadence_minutes p) (_, refl)

positive : (c : ℕ) → is_cadence c ≡ true → 0 < c
positive c h = ground (arith, h)

group_settings-ok :
    (s : Schedule) (cs : List Text) (target : ℕ) (owner : Option Text)
    → is_cadence s.cadence_minutes ≡ true
    → (made : JobSettings) × (group_job_settings s cs target owner ≡ ok made)
unfolding group_job_settings
group_settings-ok s cs target owner h =
    let start = start_minute s.cadence_minutes s.start_option in
    let (made, e) =
      job_settings-ok s [] (start % s.cadence_minutes) target owner h
        (mod-lt start (positive s.cadence_minutes h)) in
    rw e (_, refl)

-- A result that is a state of which something holds.
pub Ends : (State → Type 0) → Result BadCron State → Type 0
Ends P (ok s) = P s
Ends P (err e) = ⊥

Ends-next :
    (P Q : State → Type 0) (r : Result BadCron State) (next : State → Result BadCron State)
    → Ends P r
    → ((s : State) → P s → Ends Q (next s))
    → Ends Q (elim r [ err e ↦ err e | ok s ↦ next s ])
unfolding Ends
Ends-next P Q (err e) next h f = absurd h
Ends-next P Q (ok s) next h f = f s h

if-Ends :
    (P : State → Type 0) (b : Bool) (x y : Result BadCron State)
    → Ends P x
    → Ends P y
    → Ends P (if b then x else y)
if-Ends P true x y h k = h
if-Ends P false x y h k = k

Ends-map :
    (P Q : State → Type 0) (r : Result BadCron State)
    → Ends P r
    → ((s : State) → P s → Q s)
    → Ends Q r
unfolding Ends
Ends-map P Q (err e) h f = absurd h
Ends-map P Q (ok s) h f = f s h

abbrev was_deleted : Option ℕ → List Call → Bool
was_deleted none cs = true
was_deleted (some t) cs = any (is_delete_of t) cs

-- A result that keeps its job has one, and no call deleted it.
abbrev pub Spared : List Call → MemberResult → Type 0
Spared cs r = is_kept r.action ≡ true → was_deleted r.job_id cs ≡ false

spared_job :
    (s : State) (job : Option ℕ)
    → IsSafe s
    → has_job job s.claimed ≡ true
    → was_deleted job s.history ≡ false
spared_job s none a h = absurd (cc h)
spared_job s (some t) a h = a.spared t h

Spared-holds :
    (s : State) (r : MemberResult) → IsSafe s → holds s.claimed r ≡ true → Spared s.history r
Spared-holds s r a h its = spared_job s r.job_id a (ground (arith, h, its))

-- A schedule whose expressions can be made.
abbrev pub IsTimed : Schedule → List Member → Type 0
IsTimed s ms =
    (is_cadence s.cadence_minutes ≡ true) × All (λ m. m.offset_minutes < s.cadence_minutes) ms

module _ (api : Api) (schedule : Schedule) (target : Option ℕ) (owner : Option Text) where
  own_member-Ends :
      (jobs : List (ℕ × Text)) (goal : Option ℕ) (m : Member) (s : State)
      → is_cadence schedule.cadence_minutes ≡ true
      → m.offset_minutes < schedule.cadence_minutes
      → IsActive s
      → Ends IsActive (own_member api schedule goal owner jobs m s)
  unfolding own_member Ends
  own_member-Ends jobs none m s h p a = own_member-IsActive api schedule none owner jobs m s a
  own_member-Ends jobs (some t) m s h p a =
      let (desired, e) = job_settings-ok schedule m.task_collection m.offset_minutes t owner h p in
      let its = own_member-IsActive api schedule (some t) owner jobs m s a in
      rw (e, own_member) (rw (e, own_member) at its)

  sync_member-Ends :
      (jobs : List (ℕ × Text)) (m : Member) (s : State)
      → is_cadence schedule.cadence_minutes ≡ true
      → m.offset_minutes < schedule.cadence_minutes
      → IsActive s
      → Ends IsActive (sync_member api schedule target owner jobs m s)
  unfolding sync_member
  sync_member-Ends jobs m s h p a =
      own_member-Ends jobs target (record m { job_id = own_job api m.job_id s.taken }) s h p a

  sync_members-Ends :
      (jobs : List (ℕ × Text)) (ms : List Member) (s : State)
      → is_cadence schedule.cadence_minutes ≡ true
      → All (λ m. m.offset_minutes < schedule.cadence_minutes) ms
      → IsActive s
      → Ends IsActive (sync_members api schedule target owner jobs ms s)
  unfolding sync_members
  sync_members-Ends jobs [] s h p a = unfold Ends in a
  sync_members-Ends jobs (m ∷ ms) s h p a =
      Ends-next IsActive IsActive (sync_member api schedule target owner jobs m s)
        (λ next. sync_members api schedule target owner jobs ms next)
        (sync_member-Ends jobs m s h p.0 a) (λ next b. sync_members-Ends jobs ms next h p.1 b)

  sync_group-Ends :
      (jobs : List (ℕ × Text)) (goal : Option ℕ) (ms : List Member) (s : State)
      → is_cadence schedule.cadence_minutes ≡ true
      → IsActive s
      → Ends IsActive (sync_group api schedule goal owner jobs ms s)
  unfolding sync_group Ends
  sync_group-Ends jobs none ms s h a =
      fail_all-IsActive api ms (claim_all (group_jobs jobs) s)
        (claim_all-IsActive api (group_jobs jobs) s a)
  sync_group-Ends jobs (some t) ms s h a =
      let (desired, e) = group_settings-ok schedule (map (λ m. m.task_collection) ms) t owner h in
      let candidates = recorded ms ++ group_jobs (sorted_jobs jobs) in
      rw (e, sync_group)
        (after_find-IsActive api ms desired ((find_group api candidates s).0)
          ((find_group api candidates s).1) (find_group-IsActive api candidates s a))

  active_part-Ends :
      (jobs : List (ℕ × Text)) (ms : List Member) (s : State)
      → IsTimed schedule ms
      → IsActive s
      → Ends IsActive (active_part api schedule target owner jobs ms s)
  unfolding active_part
  active_part-Ends jobs ms s h a = if-Ends IsActive schedule.deleted _ _ (unfold Ends in a) (
      if-Ends IsActive schedule.is_check _ _ (sync_group-Ends jobs target ms s h.0 a)
        (sync_members-Ends jobs ms s h.0 h.1 a))

  deletions-IsSafe :
      (removed : List Member) (jobs : List (ℕ × Text)) (s : State)
      → IsSafe s
      → IsSafe (deletions api removed jobs s)
  unfolding deletions
  deletions-IsSafe removed jobs s a =
      remove_untracked-IsSafe api (sorted_jobs jobs) (remove_members api removed s)
        (remove_members-IsSafe api removed s a)

  sync_listed-Ends :
      (ms removed : List Member) (jobs : List (ℕ × Text)) (s : State)
      → IsTimed schedule ms
      → IsActive s
      → Ends IsSafe (sync_listed api schedule target owner ms removed jobs s)
  unfolding sync_listed
  sync_listed-Ends ms removed jobs s h a =
      Ends-next IsActive IsSafe (active_part api schedule target owner jobs ms s)
        (λ next. ok (deletions api (doomed api schedule ms removed) jobs next))
        (active_part-Ends jobs ms s h a)
        (λ next b.
          unfold Ends in
          deletions-IsSafe (doomed api schedule ms removed) jobs next (of_active next b))

  begin-IsActive : IsActive (begin api)
  begin-IsActive = record { quiet = refl; held = tt; within = λ t h. h }

  unlisted-IsActive : IsActive (begin_unlisted api)
  unlisted-IsActive = record { quiet = refl; held = (refl, tt); within = λ t h. h }

  sync-Ends :
      (ms removed : List Member)
      → IsTimed schedule ms
      → Ends IsSafe (sync api schedule target owner ms removed)
  unfolding sync
  sync-Ends ms removed h = elim (Result-cases (api.list_jobs [])) [
    | inl (listed, e) ↦
        rw (e, sync)
          (sync_listed-Ends ms removed (tagged_of schedule.id owner listed) (begin api) h
            begin-IsActive)
    | inr (x, e) ↦
        rw (e, sync) (sync_listed-Ends ms removed [] (begin_unlisted api) h unlisted-IsActive)
  ]

  -- With a cadence and offsets that have a cron expression, and whatever the Jobs API answers or raises at any call:
  -- `sync` ends with its results, and each job that a result reports as created, adopted, updated, unchanged or kept was
  -- never asked to be deleted.
  pub sync-Spared :
      (ms removed : List Member)
      → IsTimed schedule ms
      → Ends (λ s. All (Spared s.history) s.results) (sync api schedule target owner ms removed)
  sync-Spared ms removed h =
      Ends-map IsSafe (λ s. All (Spared s.history) s.results)
        (sync api schedule target owner ms removed) (sync-Ends ms removed h)
        (λ s a. All-map s.results (λ r k. Spared-holds s r a k) a.held)
