-- ===== src/Schedules/Sync/Shared.antt =====
-- schedules._sync_group, in the active members' part of `sync`.
use lakefed_ingest.Prelude.{
  ℕ, Option, none, some, Bool, true, List, [], ◌∷◌, if◌then◌else◌, sort_by, Result, ok, err, ◌≡◌,
  refl, arith, Bool-cases, inl, inr,
}
use lakefed_ingest.Schedules.Settings.{JobSettings, Setting, drift, is_group_tag}
use lakefed_ingest.Schedules.Sync.{
  resets, creates, ApiError, Api, Member, Action, created, adopted, updated, unchanged, State, mem,
  call, report, claim, result, fail, get,
}
use lakefed_ingest.Schedules.Sync.Kept.{
  IsActive, mem_self, report-IsActive, fail-IsActive, call-IsActive, claim-IsActive,
}
use lakefed_ingest.Schedules.Sync.Members.{get-IsActive}
use lakefed_ingest.Schedules.Sync.Run.{
  recorded, fail_all, share_job, by_collection, claim_all, group_found, find_group, shared,
  shared_if, group_matched, group_made, after_find,
}

module _ (api : Api) where
  pub fail_all-IsActive : (ms : List Member) (s : State) → IsActive s → IsActive (fail_all ms s)
  unfolding fail_all
  fail_all-IsActive [] s a = a
  fail_all-IsActive (m ∷ ms) s a = fail_all-IsActive ms (fail m s) (fail-IsActive m s a)

  pub claim_all-IsActive : (ts : List ℕ) (s : State) → IsActive s → IsActive (claim_all ts s)
  unfolding claim_all
  claim_all-IsActive [] s a = a
  claim_all-IsActive (t ∷ ts) s a = claim_all-IsActive ts (claim t s) (claim-IsActive t s a)

  share_job-IsActive :
      (t : ℕ) (action : Action) (ms : List Member) (s : State)
      → mem t s.claimed ≡ true
      → IsActive s
      → IsActive (share_job t action ms s)
  unfolding share_job
  share_job-IsActive t action [] s h a = a
  share_job-IsActive t action (m ∷ ms) s h a =
      share_job-IsActive t unchanged ms (report (result m (some t) action) s) h
        (report-IsActive (result m (some t) action) s (ground (arith, h)) a)

  shared-IsActive :
      (ms : List Member) (t : ℕ) (action : Action) (s : State)
      → IsActive s
      → IsActive (shared api ms t action s)
  unfolding shared
  shared-IsActive ms t action s a =
      share_job-IsActive t action (sort_by by_collection ms) (claim t s) (mem_self t s.claimed)
        (claim-IsActive t s a)

  shared_if-IsActive :
      {A : Type 0} (ms : List Member) (t : ℕ) (action : Action) (r : Result ApiError A) (s : State)
      → IsActive s
      → IsActive (shared_if api ms t action r s)
  unfolding shared_if
  shared_if-IsActive ms t action (err e) s a = fail_all-IsActive ms s a
  shared_if-IsActive ms t action (ok done) s a = shared-IsActive ms t action s a

  group_matched-IsActive :
      (ms : List Member) (t : ℕ) (known : Bool) (fields : List Setting) (desired : JobSettings)
      (s : State)
      → IsActive s
      → IsActive (group_matched api ms t known fields desired s)
  unfolding group_matched
  group_matched-IsActive ms t known [] desired s a =
      shared-IsActive ms t (if known then unchanged else adopted) s a
  group_matched-IsActive ms t known (f ∷ fs) desired s a =
      shared_if-IsActive ms t (if known then updated else adopted)
        (api.reset_job s.history t desired) (call (resets t) s) (call-IsActive (resets t) s refl a)

  group_made-IsActive :
      (ms : List Member) (r : Result ApiError ℕ) (s : State)
      → IsActive s
      → IsActive (group_made api ms r s)
  unfolding group_made
  group_made-IsActive ms (err e) s a = fail_all-IsActive ms s a
  group_made-IsActive ms (ok t) s a = shared-IsActive ms t created s a

  pub after_find-IsActive :
      (ms : List Member) (desired : JobSettings) (r : Result ApiError (Option (ℕ × JobSettings)))
      (s : State)
      → IsActive s
      → IsActive (after_find api ms desired (r, s))
  unfolding after_find
  after_find-IsActive ms desired (err e) s a = fail_all-IsActive ms s a
  after_find-IsActive ms desired (ok none) s a =
      group_made-IsActive ms (api.create_job s.history desired) (call creates s)
        (call-IsActive creates s refl a)
  after_find-IsActive ms desired (ok (some (t, found))) s a =
      group_matched-IsActive ms t (mem t (recorded ms)) (drift found desired) desired s a

  group_found-IsActive :
      (t : ℕ) (later : Result ApiError (Option (ℕ × JobSettings)) × State)
      (r : Result ApiError (Option JobSettings)) (s : State)
      → IsActive (later.1)
      → IsActive s
      → IsActive ((group_found api t later r s).1)
  unfolding group_found
  group_found-IsActive t later (err e) s l a = a
  group_found-IsActive t later (ok none) s l a = l
  group_found-IsActive t later (ok (some found)) s l a =
      elim (Bool-cases (is_group_tag found.tag_collection)) [
        | inl its ↦ rw its a
        | inr other ↦ rw other l
      ]

  pub find_group-IsActive :
      (ts : List ℕ) (s : State) → IsActive s → IsActive ((find_group api ts s).1)
  unfolding find_group
  find_group-IsActive [] s a = a
  find_group-IsActive (t ∷ ts) s a =
      let looked = get api t s in
      group_found-IsActive t (find_group api ts (looked.1)) (looked.0) (looked.1)
        (find_group-IsActive ts (looked.1) (get-IsActive api t s a)) (get-IsActive api t s a)
