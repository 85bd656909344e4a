-- ===== src/Schedules/Sync/Lost.antt =====
-- schedules._sync_group and the deletions of `sync`: the job of a check schedule whose reset raises.
use lakefed_ingest.Prelude.{
  ℕ, ◌<◌, some, Bool, true, false, ◌||◌, List, [], ◌∷◌, Text, ◌==◌, ltb, any, if◌then◌else◌, tally,
  tally-sort_by, Result, ok, err, ◌≡◌, ◌≢◌, ◌∙◌, refl, arith, ap, sym, Bool-cases, inl, inr,
}
use lakefed_ingest.Schedules.Settings.{JobSettings, Setting, drift}
use lakefed_ingest.Schedules.Sync.{
  deletes, resets, ApiError, Api, Member, deleted, error, MemberResult, State, mem, call, fail,
  client_delete, sorted_jobs,
}
use lakefed_ingest.Schedules.Sync.Deletions.{is_delete_of}
use lakefed_ingest.Schedules.Sync.Run.{
  recorded, fail_all, group_matched, shared_if, after_find, delete_done, delete_job, remove_members,
  untracked, remove_untracked, deletions,
}

-- A job that nobody claimed, and that was asked to be deleted if it counts as deleted.
record IsFree (t : ℕ) (s : State) : Type 0 where
  free : mem t s.claimed ≡ false
  gone_first : mem t s.gone_jobs ≡ true → any (is_delete_of t) s.history ≡ true

module _ (api : Api) where
  delete_done-history :
      (t : ℕ) (good bad : MemberResult) (r : Result ApiError (Unit {0})) (s : State)
      → (delete_done api t good bad r s).history ≡ s.history
  unfolding delete_done
  delete_done-history t good bad (err e) s = refl
  delete_done-history t good bad (ok done) s = refl

  delete_done-claimed :
      (t : ℕ) (good bad : MemberResult) (r : Result ApiError (Unit {0})) (s : State)
      → (delete_done api t good bad r s).claimed ≡ s.claimed
  unfolding delete_done
  delete_done-claimed t good bad (err e) s = refl
  delete_done-claimed t good bad (ok done) s = refl

  delete_done-gone :
      (t u : ℕ) (good bad : MemberResult) (r : Result ApiError (Unit {0})) (s : State)
      → mem t ((delete_done api u good bad r s).gone_jobs) ≡ true
      → (mem t s.gone_jobs || u == t) ≡ true
  unfolding delete_done
  delete_done-gone t u good bad (err e) s h = ground (arith, h)
  delete_done-gone t u good bad (ok done) s h = ground (arith, h)

  delete_job-IsFree :
      (t u : ℕ) (good bad : MemberResult) (s : State)
      → IsFree t s
      → IsFree t (delete_job api u good bad s)
  unfolding delete_job
  delete_job-IsFree t u good bad s f =
      let answer = client_delete (api.delete_job s.history u) in
      let next = call (deletes u) s in
      record {
        free = ap (mem t) (delete_done-claimed u good bad answer next) ∙ f.free;
        gone_first = λ h.
            ap (any (is_delete_of t)) (delete_done-history u good bad answer next)
            ∙ ground (arith, delete_done-gone t u good bad answer next h, f.gone_first);
      }

  delete_job-deletes :
      (t : ℕ) (good bad : MemberResult) (s : State)
      → any (is_delete_of t) ((delete_job api t good bad s).history) ≡ true
  unfolding delete_job
  delete_job-deletes t good bad s =
      ap (any (is_delete_of t)) (
        delete_done-history t good bad (client_delete (api.delete_job s.history t))
          (call (deletes t) s))
      ∙ ground arith

  delete_job-keeps :
      (t u : ℕ) (good bad : MemberResult) (s : State)
      → any (is_delete_of t) s.history ≡ true
      → any (is_delete_of t) ((delete_job api u good bad s).history) ≡ true
  unfolding delete_job
  delete_job-keeps t u good bad s h =
      ap (any (is_delete_of t)) (
        delete_done-history u good bad (client_delete (api.delete_job s.history u))
          (call (deletes u) s))
      ∙ ground (arith, h)

  abbrev step : ℕ → Text → State → State
  step u tc s =
      if mem u s.claimed || mem u s.gone_jobs
      then s
      else delete_job api u (untracked api u tc deleted) (untracked api u tc error) s

  step-keeps :
      (t u : ℕ) (tc : Text) (s : State)
      → any (is_delete_of t) s.history ≡ true
      → any (is_delete_of t) ((step u tc s).history) ≡ true
  step-keeps t u tc s h = elim (Bool-cases (mem u s.claimed || mem u s.gone_jobs)) [
    | inl skipped ↦ rw skipped h
    | inr free ↦
        rw free (delete_job-keeps t u (untracked api u tc deleted) (untracked api u tc error) s h)
  ]

  step-IsFree : (t u : ℕ) (tc : Text) (s : State) → IsFree t s → IsFree t (step u tc s)
  step-IsFree t u tc s f = elim (Bool-cases (mem u s.claimed || mem u s.gone_jobs)) [
    | inl skipped ↦ rw skipped f
    | inr free ↦
        rw free (delete_job-IsFree t u (untracked api u tc deleted) (untracked api u tc error) s f)
  ]

  step-deletes :
      (t u : ℕ) (tc : Text) (s : State)
      → u ≡ t
      → IsFree t s
      → any (is_delete_of t) ((step u tc s).history) ≡ true
  step-deletes t u tc s same f = rw same (elim (Bool-cases (mem t s.gone_jobs)) [
    | inl before ↦ rw (f.free, before) (f.gone_first before)
    | inr now ↦
        rw (f.free, now)
          (delete_job-deletes t (untracked api t tc deleted) (untracked api t tc error) s)
  ])

  untracked-keeps :
      (t : ℕ) (jobs : List (ℕ × Text)) (s : State)
      → any (is_delete_of t) s.history ≡ true
      → any (is_delete_of t) ((remove_untracked api jobs s).history) ≡ true
  unfolding remove_untracked
  untracked-keeps t [] s h = h
  untracked-keeps t ((u, tc) ∷ jobs) s h =
      untracked-keeps t jobs (step u tc s) (step-keeps t u tc s h)

  untracked-deletes :
      (t : ℕ) (jobs : List (ℕ × Text)) (s : State)
      → 0 < tally (λ j. j.0 == t) jobs
      → IsFree t s
      → any (is_delete_of t) ((remove_untracked api jobs s).history) ≡ true
  unfolding remove_untracked
  untracked-deletes t [] s h f = absurd (omega arith)
  untracked-deletes t ((u, tc) ∷ jobs) s h f = elim (Bool-cases (u == t)) [
    | inl same ↦
        untracked-keeps t jobs (step u tc s) (step-deletes t u tc s (ground (arith, same)) f)
    | inr other ↦
        untracked-deletes t jobs (step u tc s) (ground (arith, h, other)) (step-IsFree t u tc s f)
  ]

  fail_all-IsFree : (t : ℕ) (ms : List Member) (s : State) → IsFree t s → IsFree t (fail_all ms s)
  unfolding fail_all
  fail_all-IsFree t [] s f = f
  fail_all-IsFree t (m ∷ ms) s f =
      fail_all-IsFree t ms (fail m s) (record { free = f.free; gone_first = f.gone_first })

  failed_reset-IsFree :
      (t : ℕ) (ms : List Member) (known : Bool) (fields : List Setting) (desired : JobSettings)
      (s : State) {e : ApiError}
      → fields ≢ []
      → api.reset_job s.history t desired ≡ err e
      → IsFree t s
      → IsFree t (group_matched api ms t known fields desired s)
  unfolding group_matched shared_if
  failed_reset-IsFree t ms known [] desired s drifts fails f = absurd (drifts refl)
  failed_reset-IsFree t ms known (x ∷ xs) desired s drifts fails f =
      rw (fails, shared_if)
        (fail_all-IsFree t ms (call (resets t) s)
          (record { free = f.free; gone_first = λ h. ground (arith, f.gone_first h) }))

  -- Whatever a check schedule's members are: when the group's job `t` was found, has drifted, is among the tagged jobs,
  -- and its reset raises, the deletions of the same `sync` ask for `t` to be deleted, if no member is removed and no job
  -- counts as deleted or claimed yet.
  pub failed_reset-deletes :
      (t : ℕ) (ms : List Member) (jobs : List (ℕ × Text)) (found desired : JobSettings) (s : State)
      {e : ApiError}
      → drift found desired ≢ []
      → api.reset_job s.history t desired ≡ err e
      → 0 < tally (λ j. j.0 == t) jobs
      → s.claimed ≡ []
      → s.gone_jobs ≡ []
      → any
          (is_delete_of t)
          ((deletions api [] jobs (after_find api ms desired (ok (some (t, found)), s))).history)
        ≡ true
  unfolding deletions remove_members after_find sorted_jobs
  failed_reset-deletes t ms jobs found desired s drifts fails tagged unclaimed none_gone =
      untracked-deletes t (sorted_jobs jobs)
        (group_matched api ms t (mem t (recorded ms)) (drift found desired) desired s)
        (omega
          (arith, tagged, tally-sort_by (λ (j : ℕ × Text). j.0 == t) (λ a b. ltb (a.0) (b.0)) jobs))
        (failed_reset-IsFree t ms (mem t (recorded ms)) (drift found desired) desired s drifts fails
          (record {
            free = rw unclaimed refl;
            gone_first = λ h. absurd (cc (sym h ∙ ap (mem t) none_gone));
          }))
