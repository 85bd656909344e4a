-- ===== src/Schedules/Sync/Kept.antt =====
-- schedules.sync: the matching of the active members with their jobs, and the jobs that they claim.
use lakefed_ingest.Prelude.{
  ℕ, Option, none, some, Bool, true, false, not, ◌||◌, List, [], ◌∷◌, any, All, All-append, All-map,
  ◌≡◌, refl, arith,
}
use lakefed_ingest.Schedules.Sync.{
  Call, lists, gets, resets, deletes, creates, Member, Action, created, adopted, updated, unchanged,
  deleted, kept, error, MemberResult, State, mem, call, report, claim, result, fail,
}

abbrev pub is_delete : Call → Bool
is_delete lists = false
is_delete (gets t) = false
is_delete (resets t) = false
is_delete (deletes t) = true
is_delete creates = false

-- The actions of a member that has its job.
abbrev pub is_kept : Action → Bool
is_kept created = true
is_kept adopted = true
is_kept updated = true
is_kept unchanged = true
is_kept deleted = false
is_kept kept = true
is_kept error = false

abbrev pub has_job : Option ℕ → List ℕ → Bool
has_job none claimed = false
has_job (some t) claimed = mem t claimed

abbrev pub holds : List ℕ → MemberResult → Bool
holds claimed r = not (is_kept r.action) || has_job r.job_id claimed

pub record IsActive (s : State) : Type 0 where
  pub quiet : any is_delete s.history ≡ false
  pub held : All (λ r. holds s.claimed r ≡ true) s.results
  pub within : (t : ℕ) → mem t s.taken ≡ true → mem t s.claimed ≡ true

pub has_job-cons :
    (t : ℕ) (job : Option ℕ) (claimed : List ℕ)
    → has_job job claimed ≡ true
    → has_job job (t ∷ claimed) ≡ true
has_job-cons t none claimed h = h
has_job-cons t (some u) claimed h = ground (arith, h)

pub holds-cons :
    (t : ℕ) (claimed : List ℕ) (r : MemberResult)
    → holds claimed r ≡ true
    → holds (t ∷ claimed) r ≡ true
holds-cons t claimed r h = ground (arith, h, has_job-cons t r.job_id claimed)

pub report-IsActive :
    (r : MemberResult) (s : State) → holds s.claimed r ≡ true → IsActive s → IsActive (report r s)
report-IsActive r s h a = record {
  quiet = a.quiet;
  held = All-append (λ r. holds s.claimed r ≡ true) s.results (r ∷ []) a.held (h, tt);
  within = a.within;
}

pub fail-IsActive : (m : Member) (s : State) → IsActive s → IsActive (fail m s)
fail-IsActive m s a = report-IsActive (result m m.job_id error) s refl a

pub call-IsActive : (c : Call) (s : State) → is_delete c ≡ false → IsActive s → IsActive (call c s)
call-IsActive c s h a = record {
  quiet = ground (arith, h, a.quiet);
  held = a.held;
  within = a.within;
}

pub claim-IsActive : (t : ℕ) (s : State) → IsActive s → IsActive (claim t s)
claim-IsActive t s a = record {
  quiet = a.quiet;
  held = All-map s.results (holds-cons t s.claimed) a.held;
  within = λ u h. ground (arith, a.within u h);
}

pub take-IsActive :
    (t : ℕ) (s : State)
    → IsActive s
    → IsActive (record s { claimed = t ∷ s.claimed; taken = t ∷ s.taken })
take-IsActive t s a = record {
  quiet = a.quiet;
  held = All-map s.results (holds-cons t s.claimed) a.held;
  within = λ u h. ground (arith, h, a.within u);
}

pub mem_self : (t : ℕ) (ts : List ℕ) → mem t (t ∷ ts) ≡ true
mem_self t ts = ground arith
