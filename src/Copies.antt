-- ===== src/Copies.antt =====
-- cluster_copies.py: the job copies that schedules with a cluster of their own have. A copy's settings, which
-- copy_settings builds from the bundle's job, are left out of the actions.
pub mod Deletes
use lakefed_ingest.Prelude.{
  ℕ, zero, suc, ◌+◌, Option, none, some, Bool, true, false, not, ◌&&◌, ◌||◌, List, [], ◌∷◌, ◌++◌,
  map, Text, codes, text_eq, text_mem, text_lt, take, decimal, any, if◌then◌else◌, filter_by,
  sort_by, ltb,
}

-- A job that the lookup by name found, with its two tags.
pub record Job : Type 0 where
  pub job_id : ℕ
  pub tag_schedule : Option Text
  pub tag_owner : Option Text

abbrev is_tag : Option Text → Text → Bool
is_tag none t = false
is_tag (some s) t = text_eq s t

abbrev is_match : ℕ → Text → Job → Bool
is_match schedule_id owner job =
    is_tag job.tag_schedule (decimal schedule_id) && is_tag job.tag_owner (take 255 owner)

unfoldable pub matching_copies : List Job → ℕ → Text → List ℕ
matching_copies found schedule_id owner =
    sort_by (λ i j. ltb i j) (map (λ j. j.job_id) (filter_by (is_match schedule_id owner) found))

abbrev first_of : List ℕ → Option ℕ
first_of [] = none
first_of (i ∷ is) = some i

unfoldable pub adoptable : List Job → ℕ → Text → Option ℕ
unfolding matching_copies
adoptable found schedule_id owner = first_of (matching_copies found schedule_id owner)

-- What the plan reads of a schedule; `cluster` is whether `cluster_of` gives one.
pub record Schedule : Type 0 where
  pub id : ℕ
  pub deleted : Bool
  pub cluster : Bool

abbrev pub is_wanted : Schedule → Bool
is_wanted s = not s.deleted && s.cluster

abbrev pub sid : Schedule → Text
sid s = decimal s.id

pub data Action : Type 0 where
  create : Text → Action
  update delete extra : Text → ℕ → Action

unfoldable pub find_copy : Text → List (Text × ℕ) → Option ℕ
find_copy s [] = none
find_copy s ((t, job) ∷ rest) = if text_eq t s then some job else find_copy s rest

unfoldable pub create_or_update : Text → Option ℕ → Action
create_or_update s none = create s
create_or_update s (some job) = update s job

-- The copies whose schedule is considered and wants none.
unfoldable pub deletes : List Text → List Text → List (Text × ℕ) → List Action
deletes considered wanted [] = []
deletes considered wanted ((s, job) ∷ copies) =
    let later = deletes considered wanted copies in
    if text_mem s considered && not (text_mem s wanted) then delete s job ∷ later else later

unfoldable pub extras_of : Text → List ℕ → List Action
extras_of s [] = []
extras_of s (job ∷ jobs) = extra s job ∷ extras_of s jobs

unfoldable pub all_extras : List (Text × List ℕ) → List Action
unfolding extras_of
all_extras [] = []
all_extras ((s, jobs) ∷ rest) = extras_of s jobs ++ all_extras rest

abbrev pub wanted_ids : List Schedule → List Text
wanted_ids schedules = map sid (filter_by is_wanted schedules)

-- `plan`; `copies` and `extras` are dicts, so their keys are distinct, as the schedules' ids are.
unfoldable pub plan : List Schedule → List (Text × ℕ) → List (Text × List ℕ) → List Action
unfolding find_copy create_or_update deletes all_extras
plan schedules copies extras =
    let wanted = sort_by text_lt (wanted_ids schedules) in
    map (λ s. create_or_update s (find_copy s copies)) wanted
    ++ (deletes (map sid schedules) wanted (sort_by (λ c d. text_lt (c.0) (d.0)) copies)
        ++ all_extras (sort_by (λ c d. text_lt (c.0) (d.0)) extras))
