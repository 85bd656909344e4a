-- ===== src/Copies/Deletes.antt =====
-- cluster_copies.plan: the actions of a plan, against what the schedules and the copies say.
use lakefed_ingest.Prelude.{
  insert_by, sort_onto, ℕ, Option, none, some, Bool, false, not, ◌&&◌, ◌||◌, List, [], ◌∷◌, map,
  Text, decimal, text_eq, text_eq_iff, text_mem, text_lt, any, tally, tally-append, tally-sort_by,
  if◌then◌else◌, ltb, ◌+◌, sort_by, ◌==◌, ◌≡◌, refl, arith, ◌∙◌, sym, ap, Bool-cases, inl, inr,
}
use lakefed_ingest.Copies.{
  Schedule, sid, Action, create, update, delete, extra, find_copy, create_or_update, deletes,
  extras_of, all_extras, wanted_ids, plan,
}

abbrev pub is_create : Text → Action → Bool
is_create s (create t) = text_eq t s
is_create s _ = false

abbrev pub is_update : Text → ℕ → Action → Bool
is_update s job (update t j) = text_eq t s && j == job
is_update s job _ = false

abbrev pub is_delete : Text → ℕ → Action → Bool
is_delete s job (delete t j) = text_eq t s && j == job
is_delete s job _ = false

abbrev pub is_extra : Text → ℕ → Action → Bool
is_extra s job (extra t j) = text_eq t s && j == job
is_extra s job _ = false

-- A schedule with that id is there; one that is not deleted and has a cluster of its own is.
abbrev pub has_schedule : List Schedule → Text → Bool
has_schedule schedules s = any (λ x. text_eq (decimal x.id) s) schedules

abbrev pub has_own_cluster : List Schedule → Text → Bool
has_own_cluster schedules s =
    any (λ x. text_eq (decimal x.id) s && (not x.deleted && x.cluster)) schedules

-- Some copy is recorded for the schedule; how often this job is one; whether this job is the first.
abbrev pub has_copy : List (Text × ℕ) → Text → Bool
has_copy copies s = any (λ c. text_eq (c.0) s) copies

abbrev pub copies_of : List (Text × ℕ) → Text → ℕ → ℕ
copies_of copies s job = tally (λ c. text_eq (c.0) s && c.1 == job) copies

-- How many schedules with that id are not deleted and have a cluster of their own.
abbrev pub clusters_of : List Schedule → Text → ℕ
clusters_of schedules s =
    tally (λ x. text_eq (decimal x.id) s && (not x.deleted && x.cluster)) schedules

-- How often the job is a surplus copy of the schedule.
abbrev pub extras_for : List (Text × List ℕ) → Text → ℕ → ℕ
extras_for [] s job = 0
extras_for ((t, jobs) ∷ rest) s job =
    (if text_eq t s then tally (λ j. j == job) jobs else 0) + extras_for rest s job

abbrev pub is_first_copy : List (Text × ℕ) → Text → ℕ → Bool
is_first_copy [] s job = false
is_first_copy ((t, j) ∷ copies) s job =
    (text_eq t s && j == job) || (not (text_eq t s) && is_first_copy copies s job)

text_mem-wanted_ids :
    (s : Text) (schedules : List Schedule)
    → text_mem s (wanted_ids schedules) ≡ has_own_cluster schedules s
unfolding text_mem
text_mem-wanted_ids s [] = refl
text_mem-wanted_ids s (x ∷ schedules) = ground (arith, text_mem-wanted_ids s schedules)

text_mem-sids :
    (s : Text) (schedules : List Schedule)
    → text_mem s (map sid schedules) ≡ has_schedule schedules s
unfolding text_mem
text_mem-sids s [] = refl
text_mem-sids s (x ∷ schedules) = ground (arith, text_mem-sids s schedules)

tally-text_mem : (s : Text) (ts : List Text) → text_mem s ts ≡ ltb 0 (tally (λ t. text_eq t s) ts)
unfolding text_mem
tally-text_mem s [] = ground arith
tally-text_mem s (t ∷ ts) = ground (arith, tally-text_mem s ts)

text_mem-sort_by : (s : Text) (ts : List Text) → text_mem s (sort_by text_lt ts) ≡ text_mem s ts
text_mem-sort_by s ts =
    tally-text_mem s (sort_by text_lt ts)
    ∙ ap (ltb 0) (tally-sort_by (λ t. text_eq t s) text_lt ts)
    ∙ sym (tally-text_mem s ts)

tally-wanted_ids :
    (s : Text) (schedules : List Schedule)
    → tally (λ t. text_eq t s) (wanted_ids schedules)
      ≡ tally (λ x. text_eq (decimal x.id) s && (not x.deleted && x.cluster)) schedules
tally-wanted_ids s [] = refl
tally-wanted_ids s (x ∷ schedules) = ground (arith, tally-wanted_ids s schedules)

-- A test of equal texts.
swap : (f : Text → Bool) (t s : Text) → (text_eq t s && f t) ≡ (text_eq t s && f s)
swap f t s = elim (Bool-cases (text_eq t s)) [
  | inl same ↦ ap (λ (u : Text). text_eq t s && f u) ((text_eq_iff t s).0 same)
  | inr other ↦ ground (arith, other)
]

is_create-create_or_update :
    (s t : Text) (copies : List (Text × ℕ))
    → is_create s (create_or_update t (find_copy t copies))
      ≡ (text_eq t s && not (has_copy copies t))
unfolding create_or_update find_copy
is_create-create_or_update s t [] = ground arith
is_create-create_or_update s t ((u, j) ∷ copies) =
    ground (arith, is_create-create_or_update s t copies)

is_update-create_or_update :
    (s t : Text) (job : ℕ) (copies : List (Text × ℕ))
    → is_update s job (create_or_update t (find_copy t copies))
      ≡ (text_eq t s && is_first_copy copies t job)
unfolding create_or_update find_copy
is_update-create_or_update s t job [] = ground arith
is_update-create_or_update s t job ((u, j) ∷ copies) =
    ground (arith, is_update-create_or_update s t job copies)

is_delete-create_or_update :
    (s t : Text) (job : ℕ) (o : Option ℕ) → is_delete s job (create_or_update t o) ≡ false
unfolding create_or_update
is_delete-create_or_update s t job none = refl
is_delete-create_or_update s t job (some j) = refl

is_extra-create_or_update :
    (s t : Text) (job : ℕ) (o : Option ℕ) → is_extra s job (create_or_update t o) ≡ false
unfolding create_or_update
is_extra-create_or_update s t job none = refl
is_extra-create_or_update s t job (some j) = refl

abbrev made : List (Text × ℕ) → List Text → List Action
made copies = map (λ s. create_or_update s (find_copy s copies))

tally-made :
    (p : Action → Bool) (f : Text → Bool) (s : Text) (copies : List (Text × ℕ)) (ts : List Text)
    → ((t : Text) → p (create_or_update t (find_copy t copies)) ≡ (text_eq t s && f t))
    → tally p (made copies ts) ≡ (if f s then tally (λ t. text_eq t s) ts else 0)
tally-made p f s copies [] h = ground arith
tally-made p f s copies (t ∷ ts) h = ground (arith, tally-made p f s copies ts h, h t, swap f t s)

-- The actions made for the wanted schedules, by what they say of one of them.
tally-made-wanted :
    (p : Action → Bool) (f : Text → Bool) (s : Text) (schedules : List Schedule)
    (copies : List (Text × ℕ))
    → ((t : Text) → p (create_or_update t (find_copy t copies)) ≡ (text_eq t s && f t))
    → tally p (made copies (sort_by text_lt (wanted_ids schedules)))
      ≡ (if f s then clusters_of schedules s else 0)
tally-made-wanted p f s schedules copies h =
    tally-made p f s copies (sort_by text_lt (wanted_ids schedules)) h
    ∙ ap (λ (n : ℕ). if f s then n else 0)
        (tally-sort_by (λ t. text_eq t s) text_lt (wanted_ids schedules)
          ∙ tally-wanted_ids s schedules)

-- An action of another kind than those made.
unmade :
    (p : Action → Bool) (copies : List (Text × ℕ)) (ts : List Text)
    → ((t : Text) (o : Option ℕ) → p (create_or_update t o) ≡ false)
    → tally p (made copies ts) ≡ 0
unmade p copies [] h = refl
unmade p copies (t ∷ ts) h = ground (arith, unmade p copies ts h, h t (find_copy t copies))

tally-deletes :
    (p : Action → Bool) (f : Text × ℕ → Bool) (considered wanted : List Text)
    (copies : List (Text × ℕ))
    → ((t : Text) (j : ℕ) → p (delete t j) ≡ f (t, j))
    → tally p (deletes considered wanted copies)
      ≡ tally (λ c. f c && (text_mem (c.0) considered && not (text_mem (c.0) wanted))) copies
unfolding deletes
tally-deletes p f considered wanted [] h = refl
tally-deletes p f considered wanted ((t, j) ∷ copies) h =
    ground (arith, tally-deletes p f considered wanted copies h, h t j)

-- A test of the deleted copies' schedule is one of the schedule asked for.
tally-of :
    (s : Text) (job : ℕ) (f : Text → Bool) (copies : List (Text × ℕ))
    → tally (λ c. (text_eq (c.0) s && c.1 == job) && f (c.0)) copies
      ≡ (if f s then copies_of copies s job else 0)
tally-of s job f [] = ground arith
tally-of s job f ((t, j) ∷ copies) = ground (arith, tally-of s job f copies, swap f t s)

tally-none : {A : Type 0} (xs : List A) → tally (λ x. false) xs ≡ 0
tally-none [] = refl
tally-none (x ∷ xs) = ground (arith, tally-none xs)

no_deletes :
    (p : Action → Bool) (considered wanted : List Text) (copies : List (Text × ℕ))
    → ((t : Text) (j : ℕ) → p (delete t j) ≡ false)
    → tally p (deletes considered wanted copies) ≡ 0
no_deletes p considered wanted copies h =
    tally-deletes p (λ c. false) considered wanted copies h ∙ tally-none copies

tally-extras_of :
    (s t : Text) (job : ℕ) (jobs : List ℕ)
    → tally (is_extra s job) (extras_of t jobs)
      ≡ (if text_eq t s then tally (λ j. j == job) jobs else 0)
unfolding extras_of
tally-extras_of s t job [] = ground arith
tally-extras_of s t job (j ∷ jobs) = ground (arith, tally-extras_of s t job jobs)

tally-all_extras :
    (s : Text) (job : ℕ) (extras : List (Text × List ℕ))
    → tally (is_extra s job) (all_extras extras) ≡ extras_for extras s job
unfolding all_extras
tally-all_extras s job [] = refl
tally-all_extras s job ((t, jobs) ∷ rest) = omega (
  arith,
  tally-append (is_extra s job) (extras_of t jobs) (all_extras rest),
  tally-extras_of s t job jobs,
  tally-all_extras s job rest,
)

no_extras :
    (p : Action → Bool) (extras : List (Text × List ℕ))
    → ((t : Text) (j : ℕ) → p (extra t j) ≡ false)
    → tally p (all_extras extras) ≡ 0
unfolding all_extras extras_of
no_extras p [] h = refl
no_extras p ((t, []) ∷ rest) h = no_extras p rest h
no_extras p ((t, j ∷ jobs) ∷ rest) h = ground (arith, h t j, no_extras p ((t, jobs) ∷ rest) h)

extras_for-insert_by :
    (s : Text) (job : ℕ) (before : Text × List ℕ → Text × List ℕ → Bool) (x : Text × List ℕ)
    (extras : List (Text × List ℕ))
    → extras_for (insert_by before x extras) s job ≡ extras_for (x ∷ extras) s job
unfolding insert_by
extras_for-insert_by s job before x [] = refl
extras_for-insert_by s job before x (y ∷ extras) =
    ground (arith, extras_for-insert_by s job before x extras)

extras_for-sort_onto :
    (s : Text) (job : ℕ) (before : Text × List ℕ → Text × List ℕ → Bool)
    (sorted extras : List (Text × List ℕ))
    → extras_for (sort_onto before sorted extras) s job
      ≡ extras_for sorted s job + extras_for extras s job
unfolding sort_onto
extras_for-sort_onto s job before sorted [] = omega arith
extras_for-sort_onto s job before sorted (x ∷ extras) = omega (
  arith,
  extras_for-sort_onto s job before (insert_by before x sorted) extras,
  extras_for-insert_by s job before x sorted,
)

extras_for-sort_by :
    (s : Text) (job : ℕ) (before : Text × List ℕ → Text × List ℕ → Bool)
    (extras : List (Text × List ℕ))
    → extras_for (sort_by before extras) s job ≡ extras_for extras s job
unfolding sort_by
extras_for-sort_by s job before extras = omega (arith, extras_for-sort_onto s job before [] extras)

tally-plan :
    (p : Action → Bool) (schedules : List Schedule) (copies : List (Text × ℕ))
    (extras : List (Text × List ℕ))
    → tally p (plan schedules copies extras)
      ≡ tally p (made copies (sort_by text_lt (wanted_ids schedules)))
        + (tally p (
              deletes
                (map sid schedules)
                (sort_by text_lt (wanted_ids schedules))
                (sort_by (λ c d. text_lt (c.0) (d.0)) copies))
            + tally p (all_extras (sort_by (λ c d. text_lt (c.0) (d.0)) extras)))
unfolding plan
tally-plan p schedules copies extras =
    tally-append p _ _
    ∙ ap (λ (n : ℕ). tally p (made copies (sort_by text_lt (wanted_ids schedules))) + n)
        (tally-append p _ _)

removals :
    (schedules : List Schedule) (copies : List (Text × ℕ)) (s : Text) (job : ℕ)
    → tally (is_delete s job) (
        deletes
          (map sid schedules)
          (sort_by text_lt (wanted_ids schedules))
          (sort_by (λ c d. text_lt (c.0) (d.0)) copies))
      ≡ (if has_schedule schedules s && not (has_own_cluster schedules s)
          then copies_of copies s job
          else 0)
removals schedules copies s job =
    let wanted = sort_by text_lt (wanted_ids schedules) in
    let f = λ (t : Text). text_mem t (map sid schedules) && not (text_mem t wanted) in
    tally-deletes (is_delete s job) (λ c. text_eq (c.0) s && c.1 == job) (map sid schedules) wanted
      _ (λ t j. refl)
    ∙ tally-sort_by (λ c. (text_eq (c.0) s && c.1 == job) && f (c.0)) (λ c d. text_lt (c.0) (d.0))
        copies
    ∙ tally-of s job f copies
    ∙ ground (
      arith,
      text_mem-sids s schedules,
      text_mem-sort_by s (wanted_ids schedules),
      text_mem-wanted_ids s schedules,
    )

-- How often a plan has each action on the schedule `s` and the job `job`.
pub record IsPlan (schedules : List Schedule) (copies : List (Text × ℕ))
    (extras : List (Text × List ℕ)) (s : Text) (job : ℕ) (actions : List Action) : Type 0 where
  pub creates :
      tally (is_create s) actions ≡ (if not (has_copy copies s) then clusters_of schedules s else 0)
  pub updates :
      tally (is_update s job) actions
      ≡ (if is_first_copy copies s job then clusters_of schedules s else 0)
  pub removes : tally (is_delete s job) actions ≡ (
      if has_schedule schedules s && not (has_own_cluster schedules s)
      then copies_of copies s job
      else 0)
  pub reports : tally (is_extra s job) actions ≡ extras_for extras s job

-- A plan creates a copy for exactly the schedules that are not deleted, have a cluster of their own and have no copy
-- recorded, and updates exactly the first copy recorded for such a schedule; it deletes exactly the recorded copies
-- whose schedule is considered and is not such a schedule; and it reports exactly the surplus copies it is given:
-- each of them as often as the schedule, the copy or the surplus copy is listed.
pub plan-IsPlan :
    (schedules : List Schedule) (copies : List (Text × ℕ)) (extras : List (Text × List ℕ))
    (s : Text) (job : ℕ)
    → IsPlan schedules copies extras s job (plan schedules copies extras)
plan-IsPlan schedules copies extras s job =
    let wanted = sort_by text_lt (wanted_ids schedules) in
    let sorted = sort_by (λ (c d : Text × ℕ). text_lt (c.0) (d.0)) copies in
    let others = sort_by (λ (c d : Text × List ℕ). text_lt (c.0) (d.0)) extras in
    record {
      creates = omega (
        arith,
        tally-plan (is_create s) schedules copies extras,
        tally-made-wanted (is_create s) (λ t. not (has_copy copies t)) s schedules copies
            (λ t. is_create-create_or_update s t copies),
        no_deletes (is_create s) (map sid schedules) wanted sorted (λ t j. refl),
        no_extras (is_create s) others (λ t j. refl),
      );
      updates = omega (
        arith,
        tally-plan (is_update s job) schedules copies extras,
        tally-made-wanted (is_update s job) (λ t. is_first_copy copies t job) s schedules copies
            (λ t. is_update-create_or_update s t job copies),
        no_deletes (is_update s job) (map sid schedules) wanted sorted (λ t j. refl),
        no_extras (is_update s job) others (λ t j. refl),
      );
      removes = omega (
        arith,
        tally-plan (is_delete s job) schedules copies extras,
        unmade (is_delete s job) copies wanted (λ t o. is_delete-create_or_update s t job o),
        removals schedules copies s job,
        no_extras (is_delete s job) others (λ t j. refl),
      );
      reports = omega (
        arith,
        tally-plan (is_extra s job) schedules copies extras,
        unmade (is_extra s job) copies wanted (λ t o. is_extra-create_or_update s t job o),
        no_deletes (is_extra s job) (map sid schedules) wanted sorted (λ t j. refl),
        tally-all_extras s job others,
        extras_for-sort_by s job (λ c d. text_lt (c.0) (d.0)) extras,
      );
    }
