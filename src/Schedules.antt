-- ===== src/Schedules.antt =====
-- The operations app's schedules.py: cadences, offsets and cron expressions. The other parts are in the modules below
-- this one. Time zones, which the zone database defines, and the dates that `fire_times` steps through are left out.
pub mod Fires
pub mod Offsets
pub mod Settings
pub mod Sync
pub mod Skipped
use lakefed_ingest.Prelude.{
  ℕ, zero, suc, ◌+◌, ◌*◌, ◌/◌, ◌%◌, ◌-◌, Option, none, some, Bool, true, false, not, ◌&&◌, ◌||◌,
  List, [], ◌∷◌, ◌++◌, map, Text, codes, decimal, text_lt, if◌then◌else◌, ltb, leb, ◌==◌, any,
  sort_by, strip, length, Result, ok, err,
}

-- `CADENCES`: minutes; each divides a day.
abbrev pub cadences : List ℕ
cadences = 5 ∷ 10 ∷ 15 ∷ 20 ∷ 30 ∷ 60 ∷ 120 ∷ 180 ∷ 240 ∷ 360 ∷ 720 ∷ 1440 ∷ []

abbrev pub is_cadence : ℕ → Bool
is_cadence cadence = any (λ c. c == cadence) cadences

abbrev pub or_utc : Text → Text
or_utc [] = codes "UTC"
or_utc (c ∷ s) = c ∷ s

abbrev text_or : Option Text → Text
text_or none = []
text_or (some t) = t

unfoldable pub timezone_for : ℕ → Option Text → Text
timezone_for cadence tz = if leb cadence 60 then codes "UTC" else or_utc (strip (text_or tz))

-- `start_minute`, of a schedule's cadence and the option; 0 stands for an option that is not set.
unfoldable pub start_minute : ℕ → ℕ → ℕ
start_minute cadence option = if ltb 60 cadence then option else 0

abbrev pub span_of : ℕ → ℕ
span_of cadence = if ltb cadence 60 then cadence else 60

-- The offsets of the names from the `i`-th on, of `n` names.
unfoldable pub offsets_from : ℕ → Bool → ℕ → ℕ → ℕ → List Text → List (Text × ℕ)
offsets_from cadence stagger start n i [] = []
offsets_from cadence stagger start n i (c ∷ names) =
    (c, (start + (if stagger then i * span_of cadence / n else 0)) % cadence)
    ∷ offsets_from cadence stagger start n (i + 1) names

-- The collections are a schedule's members, which are distinct.
unfoldable pub offsets : List Text → ℕ → Bool → ℕ → List (Text × ℕ)
unfolding offsets_from
offsets collections cadence stagger start =
    let names = sort_by text_lt collections in
    offsets_from cadence stagger (if ltb 60 cadence then start else 0) (length names) 0 names

-- A number in two digits at least, `:02d`.
unfoldable pub two_digits : ℕ → Text
two_digits n = if ltb n 10 then b'0' ∷ decimal n else decimal n

unfoldable pub past_the_hour : ℕ → Text
past_the_hour minutes =
    if minutes == 0
    then codes "on the hour"
    else decimal minutes
      ++ codes " minute"
      ++ (if minutes == 1 then [] else codes "s")
      ++ codes " past the hour"

unfoldable pub clock : ℕ → Text
unfolding two_digits
clock offset = two_digits (offset / 60) ++ codes ":" ++ two_digits (offset % 60)

unfoldable pub member_start : ℕ → ℕ → Text
unfolding clock past_the_hour
member_start cadence offset = if ltb 60 cadence then clock offset else past_the_hour (offset % 60)

-- `(offset - start) % cadence`, which is not negative in the source.
unfoldable pub stagger_of : ℕ → ℕ → ℕ → ℕ
stagger_of offset cadence start =
    (offset + cadence - (if ltb 60 cadence then start else 0) % cadence) % cadence

pub data BadCron : Type 0 where
  bad_cron : ℕ → ℕ → BadCron

-- The seconds, minutes and hours of the expression, before ` * * ?`.
unfoldable pub cron_fields : ℕ → ℕ → Text
cron_fields cadence offset =
    if ltb cadence 60
    then codes "0 " ++ decimal offset ++ codes "/" ++ decimal cadence ++ codes " *"
    else if cadence == 60
    then codes "0 " ++ decimal (offset % 60) ++ codes " *"
    else if cadence == 1440
    then codes "0 " ++ decimal (offset % 60) ++ codes " " ++ decimal (offset / 60)
    else (codes "0 "
        ++ decimal (offset % 60)
        ++ codes " "
        ++ decimal (offset / 60)
        ++ codes "/"
        ++ decimal (cadence / 60))

unfoldable pub quartz_cron : ℕ → ℕ → Result BadCron Text
unfolding cron_fields
quartz_cron cadence offset =
    if is_cadence cadence && ltb offset cadence
    then ok (cron_fields cadence offset ++ codes " * * ?")
    else err (bad_cron cadence offset)

unfoldable pub describe : ℕ → ℕ → Option Text → Text
unfolding clock past_the_hour
describe cadence offset tz =
    let zone = codes " (" ++ or_utc (text_or tz) ++ codes ")" in
    if ltb cadence 60
    then (codes "Every "
        ++ decimal cadence
        ++ codes " minutes"
        ++ (if offset == 0 then [] else codes ", starting at " ++ past_the_hour offset)
        ++ codes " (UTC)")
    else if cadence == 60
    then (codes "Every hour, "
        ++ (if offset == 0 then codes "on the hour" else codes "at " ++ past_the_hour offset)
        ++ codes " (UTC)")
    else if cadence == 1440
    then codes "Every day at " ++ clock offset ++ zone
    else (codes "Every "
        ++ decimal (cadence / 60)
        ++ codes " hours, starting at "
        ++ clock offset
        ++ zone)
