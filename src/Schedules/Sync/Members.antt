-- ===== src/Schedules/Sync/Members.antt =====
-- schedules.sync: the loop over the active members.
use lakefed_ingest.Prelude.{
  ℕ, Option, none, some, true, not, ◌&&◌, List, [], ◌∷◌, Text, text_eq, take, Result, ok, err,
  Result-cases, OnOk, ◌≡◌, refl, arith, Bool-cases, inl, inr,
}
use lakefed_ingest.Schedules.Settings.{Schedule, JobSettings, Setting, drift, job_settings}
use lakefed_ingest.Schedules.Sync.{
  gets, resets, creates, ApiError, Api, Member, Action, created, adopted, updated, State, mem, call,
  report, claim, result, get, adopt_found, reset_done, without_reset, adopt, made, matched, use_job,
  after_adopt, after_get, with_job, claim_own, claim_tagged, own_member, sorted_jobs,
}
use lakefed_ingest.Schedules.Sync.Kept.{
  IsActive, mem_self, report-IsActive, fail-IsActive, call-IsActive, claim-IsActive, take-IsActive,
}

module _ (api : Api) where
  adopt_found-IsActive :
      (t : ℕ) (later : Result ApiError (Option (ℕ × JobSettings)) × State)
      (r : Result ApiError (Option JobSettings)) (s : State)
      → IsActive (later.1)
      → IsActive s
      → IsActive ((adopt_found api t later r s).1)
  unfolding adopt_found
  adopt_found-IsActive t later (err e) s l a = a
  adopt_found-IsActive t later (ok none) s l a = l
  adopt_found-IsActive t later (ok (some found)) s l a = a

  pub get-IsActive : (t : ℕ) (s : State) → IsActive s → IsActive ((get api t s).1)
  unfolding get
  get-IsActive t s a = call-IsActive (gets t) s refl a

  adopt-IsActive :
      (c : Text) (jobs : List (ℕ × Text)) (s : State)
      → IsActive s
      → IsActive ((adopt api c jobs s).1)
  unfolding adopt
  adopt-IsActive c [] s a = a
  adopt-IsActive c ((t, tc) ∷ jobs) s a =
      let looked = get api t s in
      elim (Bool-cases (text_eq tc (take 255 c) && not (mem t s.claimed))) [
        | inl found ↦ rw found (
            adopt_found-IsActive t (adopt api c jobs (looked.1)) (looked.0) (looked.1)
              (adopt-IsActive c jobs (looked.1) (get-IsActive t s a)) (get-IsActive t s a))
        | inr skipped ↦ rw skipped (adopt-IsActive c jobs s a)
      ]

  made-IsActive :
      (m : Member) (r : Result ApiError ℕ) (s : State) → IsActive s → IsActive (made api m r s)
  unfolding made
  made-IsActive m (err e) s a = fail-IsActive m s a
  made-IsActive m (ok t) s a =
      report-IsActive (result m (some t) created)
        (record s { claimed = t ∷ s.claimed; taken = t ∷ s.taken }) (mem_self t s.claimed)
        (take-IsActive t s a)

  -- A job that is claimed is reported with any action.
  kept-IsActive :
      (m : Member) (t : ℕ) (action : Action) (s : State)
      → mem t s.claimed ≡ true
      → IsActive s
      → IsActive (report (result m (some t) action) s)
  kept-IsActive m t action s h a =
      report-IsActive (result m (some t) action) s (ground (arith, h)) a

  reset_done-IsActive :
      (m : Member) (t : ℕ) (action : Action) (r : Result ApiError (Unit {0})) (s : State)
      → mem t s.claimed ≡ true
      → IsActive s
      → IsActive (reset_done api m t action r s)
  unfolding reset_done
  reset_done-IsActive m t action (err e) s h a = fail-IsActive m s a
  reset_done-IsActive m t action (ok done) s h a = kept-IsActive m t action s h a

  matched-IsActive :
      (m : Member) (t : ℕ) (action : Action) (fields : List Setting) (desired : JobSettings)
      (s : State)
      → mem t s.claimed ≡ true
      → IsActive s
      → IsActive (matched api m t action fields desired s)
  unfolding matched
  matched-IsActive m t action [] desired s h a = kept-IsActive m t (without_reset api action) s h a
  matched-IsActive m t action (f ∷ fs) desired s h a =
      reset_done-IsActive m t action (api.reset_job s.history t desired) (call (resets t) s) h
        (call-IsActive (resets t) s refl a)

  use_job-IsActive :
      (m : Member) (t : ℕ) (action : Action) (found desired : JobSettings) (s : State)
      → IsActive s
      → IsActive (use_job api m t action found desired s)
  unfolding use_job
  use_job-IsActive m t action found desired s a =
      matched-IsActive m t action (drift found desired) desired
        (record s { claimed = t ∷ s.claimed; taken = t ∷ s.taken }) (mem_self t s.claimed)
        (take-IsActive t s a)

  after_adopt-IsActive :
      (m : Member) (desired : JobSettings) (r : Result ApiError (Option (ℕ × JobSettings)))
      (s : State)
      → IsActive s
      → IsActive (after_adopt api m desired (r, s))
  unfolding after_adopt
  after_adopt-IsActive m desired (err e) s a = fail-IsActive m s a
  after_adopt-IsActive m desired (ok none) s a =
      made-IsActive m (api.create_job s.history desired) (call creates s)
        (call-IsActive creates s refl a)
  after_adopt-IsActive m desired (ok (some (t, found))) s a =
      use_job-IsActive m t adopted found desired s a

  adopting-IsActive :
      (m : Member) (jobs : List (ℕ × Text)) (desired : JobSettings) (s : State)
      → IsActive s
      → IsActive (after_adopt api m desired (adopt api m.task_collection jobs s))
  adopting-IsActive m jobs desired s a =
      after_adopt-IsActive m desired ((adopt api m.task_collection jobs s).0)
        ((adopt api m.task_collection jobs s).1) (adopt-IsActive m.task_collection jobs s a)

  after_get-IsActive :
      (m : Member) (t : ℕ) (jobs : List (ℕ × Text)) (desired : JobSettings)
      (r : Result ApiError (Option JobSettings)) (s : State)
      → IsActive s
      → IsActive (after_get api m t jobs desired (r, s))
  unfolding after_get
  after_get-IsActive m t jobs desired (err e) s a = fail-IsActive m s a
  after_get-IsActive m t jobs desired (ok none) s a = adopting-IsActive m jobs desired s a
  after_get-IsActive m t jobs desired (ok (some found)) s a =
      use_job-IsActive m t updated found desired s a

  with_job-IsActive :
      (m : Member) (job : Option ℕ) (jobs : List (ℕ × Text)) (desired : JobSettings) (s : State)
      → IsActive s
      → IsActive (with_job api m job jobs desired s)
  unfolding with_job
  with_job-IsActive m none jobs desired s a = adopting-IsActive m jobs desired s a
  with_job-IsActive m (some t) jobs desired s a =
      after_get-IsActive m t jobs desired ((get api t s).0) ((get api t s).1) (get-IsActive t s a)

  claim_own-IsActive : (job : Option ℕ) (s : State) → IsActive s → IsActive (claim_own api job s)
  unfolding claim_own
  claim_own-IsActive none s a = a
  claim_own-IsActive (some t) s a = claim-IsActive t s a

  claim_tagged-IsActive :
      (c : Text) (jobs : List (ℕ × Text)) (s : State)
      → IsActive s
      → IsActive (claim_tagged api c jobs s)
  unfolding claim_tagged
  claim_tagged-IsActive c [] s a = a
  claim_tagged-IsActive c ((t, tc) ∷ jobs) s a = elim (Bool-cases (text_eq tc (take 255 c))) [
    | inl its ↦ rw its (claim_tagged-IsActive c jobs (claim t s) (claim-IsActive t s a))
    | inr other ↦ rw other (claim_tagged-IsActive c jobs s a)
  ]

  pub own_member-IsActive :
      (schedule : Schedule) (target : Option ℕ) (owner : Option Text) (jobs : List (ℕ × Text))
      (m : Member) (s : State)
      → IsActive s
      → OnOk IsActive (own_member api schedule target owner jobs m s)
  unfolding own_member
  own_member-IsActive schedule none owner jobs m s a =
      fail-IsActive m (claim_tagged api m.task_collection jobs (claim_own api m.job_id s)) (
        claim_tagged-IsActive m.task_collection jobs (claim_own api m.job_id s)
          (claim_own-IsActive m.job_id s a))
  own_member-IsActive schedule (some target) owner jobs m s a =
      elim (Result-cases (job_settings schedule m.task_collection m.offset_minutes target owner)) [
        | inl (desired, e) ↦
            rw (e, own_member)
              (with_job-IsActive m m.job_id (sorted_jobs jobs) desired (claim_own api m.job_id s)
                (claim_own-IsActive m.job_id s a))
        | inr (x, e) ↦ rw (e, own_member) tt
      ]
