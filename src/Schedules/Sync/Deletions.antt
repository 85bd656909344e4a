-- ===== src/Schedules/Sync/Deletions.antt =====
-- schedules.sync: the deletions, and the jobs that were claimed before them.
use lakefed_ingest.Prelude.{
  ℕ, Option, none, some, Bool, true, false, ◌||◌, List, [], ◌∷◌, Text, ◌==◌, any, All, All-append,
  if◌then◌else◌, Result, ok, err, ◌≡◌, ◌∙◌, refl, sym, ap, ||-eq-false, arith, Bool-cases, inl, inr,
}
use lakefed_ingest.Schedules.Sync.{
  Call, lists, gets, resets, deletes, creates, ApiError, Api, Member, deleted, kept, error,
  MemberResult, State, mem, call, report, result, client_delete,
}
use lakefed_ingest.Schedules.Sync.Kept.{IsActive, is_delete, is_kept, holds}
use lakefed_ingest.Schedules.Sync.Run.{
  delete_done, delete_job, remove_job, remove_members, untracked, remove_untracked,
}

-- A call deletes the given job.
abbrev pub is_delete_of : ℕ → Call → Bool
is_delete_of t lists = false
is_delete_of t (gets u) = false
is_delete_of t (resets u) = false
is_delete_of t (deletes u) = u == t
is_delete_of t creates = false

quiet-lem : (t : ℕ) (cs : List Call) → any is_delete cs ≡ false → any (is_delete_of t) cs ≡ false
quiet-lem t [] h = refl
quiet-lem t (lists ∷ cs) h = quiet-lem t cs h
quiet-lem t (gets u ∷ cs) h = quiet-lem t cs h
quiet-lem t (resets u ∷ cs) h = quiet-lem t cs h
quiet-lem t (deletes u ∷ cs) h = absurd (cc h)
quiet-lem t (creates ∷ cs) h = quiet-lem t cs h

-- No claimed job was deleted, and the jobs of the results that keep theirs are claimed.
pub record IsSafe (s : State) : Type 0 where
  pub spared : (t : ℕ) → mem t s.claimed ≡ true → any (is_delete_of t) s.history ≡ false
  pub held : All (λ r. holds s.claimed r ≡ true) s.results

pub of_active : (s : State) → IsActive s → IsSafe s
of_active s a = record { spared = λ t h. quiet-lem t s.history a.quiet; held = a.held }

report-IsSafe :
    (r : MemberResult) (s : State) → holds s.claimed r ≡ true → IsSafe s → IsSafe (report r s)
report-IsSafe r s h a = record {
  spared = a.spared;
  held = All-append (λ r. holds s.claimed r ≡ true) s.results (r ∷ []) a.held (h, tt);
}

module _ (api : Api) where
  delete_done-IsSafe :
      (t : ℕ) (good bad : MemberResult) (r : Result ApiError (Unit {0})) (s : State)
      → is_kept good.action ≡ false
      → is_kept bad.action ≡ false
      → IsSafe s
      → IsSafe (delete_done api t good bad r s)
  unfolding delete_done
  delete_done-IsSafe t good bad (err e) s g b a = report-IsSafe bad s (ground (arith, b)) a
  delete_done-IsSafe t good bad (ok done) s g b a =
      report-IsSafe good (record s { gone_jobs = t ∷ s.gone_jobs }) (ground (arith, g))
        (record { spared = a.spared; held = a.held })

  delete_job-IsSafe :
      (t : ℕ) (good bad : MemberResult) (s : State)
      → mem t s.claimed ≡ false
      → is_kept good.action ≡ false
      → is_kept bad.action ≡ false
      → IsSafe s
      → IsSafe (delete_job api t good bad s)
  unfolding delete_job
  delete_job-IsSafe t good bad s free g b a =
      delete_done-IsSafe t good bad (client_delete (api.delete_job s.history t))
        (call (deletes t) s) g b
        (record {
          spared = λ u h. elim (Bool-cases (t == u)) [
            | inl same ↦
                absurd (cc (sym free ∙ (ap (λ v. mem v s.claimed) (ground (arith, same)) ∙ h)))
            | inr other ↦ rw other (a.spared u h)
          ];
          held = a.held;
        })

  remove_job-IsSafe :
      (m : Member) (job : Option ℕ) (s : State) → IsSafe s → IsSafe (remove_job api m job s)
  unfolding remove_job
  remove_job-IsSafe m none s a = a
  remove_job-IsSafe m (some t) s a = elim (Bool-cases (mem t s.claimed)) [
    | inl its ↦ rw its (report-IsSafe (result m (some t) kept) s its a)
    | inr free ↦ rw free (elim (Bool-cases (mem t s.gone_jobs)) [
      | inl before ↦ rw before (report-IsSafe (result m (some t) deleted) s refl a)
      | inr now ↦ rw now (
          delete_job-IsSafe t (result m (some t) deleted) (result m (some t) error) s free refl refl
            a)
    ])
  ]

  pub remove_members-IsSafe :
      (ms : List Member) (s : State) → IsSafe s → IsSafe (remove_members api ms s)
  unfolding remove_members
  remove_members-IsSafe [] s a = a
  remove_members-IsSafe (m ∷ ms) s a =
      remove_members-IsSafe ms (remove_job api m m.job_id s) (remove_job-IsSafe m m.job_id s a)

  untracked-IsSafe :
      (t : ℕ) (tc : Text) (s : State)
      → IsSafe s
      → IsSafe (
          if mem t s.claimed || mem t s.gone_jobs
          then s
          else delete_job api t (untracked api t tc deleted) (untracked api t tc error) s)
  untracked-IsSafe t tc s a = elim (Bool-cases (mem t s.claimed || mem t s.gone_jobs)) [
    | inl skipped ↦ rw skipped a
    | inr free ↦ rw free (
        delete_job-IsSafe t (untracked api t tc deleted) (untracked api t tc error) s
          ((||-eq-false (mem t s.claimed) (mem t s.gone_jobs) free).0) refl refl a)
  ]

  pub remove_untracked-IsSafe :
      (jobs : List (ℕ × Text)) (s : State) → IsSafe s → IsSafe (remove_untracked api jobs s)
  unfolding remove_untracked
  remove_untracked-IsSafe [] s a = a
  remove_untracked-IsSafe ((t, tc) ∷ jobs) s a =
      remove_untracked-IsSafe jobs
        (if mem t s.claimed || mem t s.gone_jobs
          then s
          else delete_job api t (untracked api t tc deleted) (untracked api t tc error) s)
        (untracked-IsSafe t tc s a)
