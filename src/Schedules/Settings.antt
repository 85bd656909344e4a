-- ===== src/Schedules/Settings.antt =====
-- schedules.py: the settings of a wrapper job, as far as the app compares them (`_comparable`), and their drift. The
-- description and the access list, which are not compared, are left out.
use lakefed_ingest.Prelude.{
  ℕ, ◌%◌, Option, none, some, Bool, true, false, not, ◌&&◌, ◌||◌, List, [], ◌∷◌, ◌++◌, map, Text,
  codes, text_eq, text_lt, decimal, take, if◌then◌else◌, ◌==◌, ltb, length, sort_by, join, strip,
  filter_by, is_truthy, split_commas, Result, ok, ◌>>=◌,
}
use lakefed_ingest.Schedules.{BadCron, quartz_cron, start_minute, or_utc}

-- What the settings are built from, of a schedule. The parameters are sorted by name, as the source sorts them; `addrs`
-- is the text of `notify_emails`, `copy_job` the copy that the schedule runs.
pub record Schedule : Type 0 where
  pub id : ℕ
  pub name : Text
  pub cadence_minutes : ℕ
  pub timezone : Text
  pub paused : Bool
  pub start_option : ℕ
  pub parameters : List (Text × Text)
  pub notify_emails : Option Text
  pub is_check : Bool
  pub deleted : Bool
  pub copy_job : Option ℕ

pub record JobSettings : Type 0 where
  pub name : Text
  pub cron : Text
  pub timezone : Text
  pub paused : Bool
  pub max_concurrent_runs : ℕ
  pub queue : Bool
  pub tasks : ℕ
  pub target_job_id : ℕ
  pub job_parameters : List (Text × Text)
  pub tag_schedule : Option Text
  pub tag_collection : Option Text
  pub tag_owner : Option Text
  pub notify : List Text
  pub no_alert_for_skipped_runs : Bool

abbrev pub group_tag : Text
group_tag = codes "all-members"

-- `is_group_tag`: the tag of a check schedule's wrapper, or the one that earlier wrappers have.
unfoldable pub is_group_tag : Option Text → Bool
is_group_tag none = false
is_group_tag (some t) = text_eq t group_tag || text_eq t (codes "*")

-- `text.replace(";", ",")`
unfoldable pub commas : Text → Text
commas = map (λ c. if c == b';' then b',' else c)

abbrev text_or : Option Text → Text
text_or none = []
text_or (some t) = t

unfoldable pub emails : Option Text → List Text
unfolding commas
emails text = filter_by (λ e. is_truthy (some e)) (map strip (split_commas (commas (text_or text))))

unfoldable pub job_name : Text → Text → Text
job_name schedule_name collection =
    codes "lakefed_ingest schedule: " ++ schedule_name ++ codes " / " ++ collection

abbrev pub owner_tag : Option Text → Option Text
owner_tag none = none
owner_tag (some []) = none
owner_tag (some (c ∷ s)) = some (take 255 (c ∷ s))

unfoldable pub run_parameters : Schedule → Text → List (Text × Text)
run_parameters s collection = (codes "task_collection", collection) ∷ s.parameters

-- The settings of a wrapper job at a cron expression.
unfoldable pub settings_at : Schedule → Text → ℕ → Option Text → Text → JobSettings
unfolding job_name run_parameters emails
settings_at s collection ingest_job_id owner cron = record {
  name = job_name s.name collection;
  cron = cron;
  timezone = or_utc s.timezone;
  paused = s.paused;
  max_concurrent_runs = 1;
  queue = false;
  tasks = 1;
  target_job_id = ingest_job_id;
  job_parameters = run_parameters s collection;
  tag_schedule = some (decimal s.id);
  tag_collection = some (take 255 collection);
  tag_owner = owner_tag owner;
  notify = sort_by text_lt (emails s.notify_emails);
  no_alert_for_skipped_runs = true;
}

unfoldable pub job_settings : Schedule → Text → ℕ → ℕ → Option Text → Result BadCron JobSettings
unfolding settings_at quartz_cron
job_settings s collection offset ingest_job_id owner =
    quartz_cron s.cadence_minutes offset >>= λ cron.
    ok (settings_at s collection ingest_job_id owner cron)

abbrev copy_parameter : Option ℕ → List (Text × Text)
copy_parameter none = []
copy_parameter (some job) = (codes "ingest_job_id", decimal job) ∷ []

unfoldable pub group_parameters : Schedule → List Text → List (Text × Text)
group_parameters s collections =
    let members = join (codes ",") (sort_by text_lt collections) in
    (codes "schedule_id", decimal s.id)
    ∷ (codes "task_collections", if ltb 10000 (length members) then [] else members)
    ∷ (s.parameters ++ copy_parameter s.copy_job)

unfoldable pub group_job_settings :
    Schedule → List Text → ℕ → Option Text → Result BadCron JobSettings
unfolding job_settings group_parameters job_name
group_job_settings s collections check_job_id owner =
    job_settings s [] (start_minute s.cadence_minutes s.start_option % s.cadence_minutes)
      check_job_id owner
    >>= λ made. ok (record made {
      name = job_name s.name (codes "check");
      job_parameters = group_parameters s collections;
      tag_collection = some group_tag;
    })

-- The app-owned settings, in the order of `_comparable`.
pub data Setting : Type 0 where
  name_field cron_field timezone_field paused_field runs_field queue_field tasks_field target_field
        parameters_field tags_field notify_field alert_field :
      Setting

abbrev bool_eq : Bool → Bool → Bool
bool_eq true b = b
bool_eq false b = not b

-- Dicts in the order of their keys; a dict's parameters are compared by key, so `sorted_parameters` sorts first.
pairs_eq : List (Text × Text) → List (Text × Text) → Bool
pairs_eq [] [] = true
pairs_eq [] (q ∷ qs) = false
pairs_eq (p ∷ ps) [] = false
pairs_eq ((k, v) ∷ ps) ((l, w) ∷ qs) = (text_eq k l && text_eq v w) && pairs_eq ps qs

texts_eq : List Text → List Text → Bool
texts_eq [] [] = true
texts_eq [] (q ∷ qs) = false
texts_eq (p ∷ ps) [] = false
texts_eq (p ∷ ps) (q ∷ qs) = text_eq p q && texts_eq ps qs

abbrev by_key : Text × Text → Text × Text → Bool
by_key p q = text_lt (p.0) (q.0)

abbrev tag_eq : Option Text → Option Text → Bool
tag_eq none none = true
tag_eq none (some t) = false
tag_eq (some s) none = false
tag_eq (some s) (some t) = text_eq s t

abbrev unless_same : Bool → Setting → List Setting
unless_same true f = []
unless_same false f = f ∷ []

-- `drift`: the settings that differ.
unfoldable pub drift : JobSettings → JobSettings → List Setting
unfolding pairs_eq texts_eq
drift a d =
    unless_same (text_eq a.name d.name) name_field
    ++ (unless_same (text_eq a.cron d.cron) cron_field
        ++ (unless_same (text_eq a.timezone d.timezone) timezone_field
            ++ (unless_same (bool_eq a.paused d.paused) paused_field
                ++ (unless_same (a.max_concurrent_runs == d.max_concurrent_runs) runs_field
                    ++ (unless_same (bool_eq a.queue d.queue) queue_field
                        ++ (unless_same (a.tasks == d.tasks) tasks_field
                            ++ (unless_same (a.target_job_id == d.target_job_id) target_field
                                ++ (unless_same
                                      (pairs_eq (sort_by by_key a.job_parameters)
                                        (sort_by by_key d.job_parameters))
                                      parameters_field
                                    ++ (unless_same
                                          (tag_eq a.tag_schedule d.tag_schedule
                                            && (tag_eq a.tag_collection d.tag_collection
                                                && tag_eq a.tag_owner d.tag_owner))
                                          tags_field
                                        ++ (unless_same (texts_eq a.notify d.notify) notify_field
                                            ++ unless_same
                                                (bool_eq a.no_alert_for_skipped_runs
                                                  d.no_alert_for_skipped_runs)
                                                alert_field))))))))))
