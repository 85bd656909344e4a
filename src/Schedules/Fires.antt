-- ===== src/Schedules/Fires.antt =====
-- schedules.quartz_cron: a reader of cron expressions, and the minutes that one fires at.
use lakefed_ingest.Prelude.{
  ℕ, zero, suc, ◌-◌, ◌/◌, ◌%◌, ◌<◌, Option, none, some, Bool, true, false, ◌&&◌, List, [], ◌∷◌,
  ◌++◌, Text, codes, text_eq, int_of_text, decimal, if◌then◌else◌, ltb, leb, ◌==◌, any, Result, ok,
  err, ◌≡◌, refl, arith, subst, All, Bool-cases, inl, inr, &&-eq-true,
}
use mathlib.Core.List.{reverse}
use lakefed_ingest.Schedules.{cadences, is_cadence, cron_fields, quartz_cron, BadCron}

-- A field of an expression: every value, one value, or a value and every step behind it.
data Field : Type 0 where
  each : Field
  exactly : ℕ → Field
  steps : ℕ → ℕ → Field

split_at : ℕ → Text → Text → List Text
split_at c part [] = reverse part ∷ []
split_at c part (d ∷ s) = if d == c then reverse part ∷ split_at c [] s else split_at c (d ∷ part) s

steps_of : Option ℕ → Option ℕ → Option Field
steps_of (some a) (some b) = some (steps a b)
steps_of none b = none
steps_of (some a) none = none

exactly_of : Option ℕ → Option Field
exactly_of none = none
exactly_of (some n) = some (exactly n)

field_of : List Text → Option Field
field_of [] = none
field_of (t ∷ []) = if text_eq t (codes "*") then some each else exactly_of (int_of_text t)
field_of (a ∷ b ∷ []) = steps_of (int_of_text a) (int_of_text b)
field_of (a ∷ b ∷ c ∷ ts) = none

-- The minutes and hours of an expression that fires in second 0, on every day.
expression_of : List Text → Option Field × Option Field
unfolding field_of steps_of exactly_of split_at
expression_of (s ∷ m ∷ h ∷ d ∷ n ∷ w ∷ []) =
    if text_eq s (codes "0")
      && text_eq d (codes "*")
      && text_eq n (codes "*")
      && text_eq w (codes "?")
    then (field_of (split_at b'/' [] m), field_of (split_at b'/' [] h))
    else (none, none)
expression_of fields = (none, none)

read_cron : Text → Option Field × Option Field
unfolding expression_of split_at
read_cron text = expression_of (split_at b' ' [] text)

holds : Option Field → ℕ → Bool
holds none n = false
holds (some each) n = true
holds (some (exactly k)) n = n == k
holds (some (steps a b)) n = leb a n && (n - a) % b == 0

-- Whether an expression fires at a minute of the day.
pub fires : Text → ℕ → Bool
unfolding holds read_cron
fires text minute =
    holds ((read_cron text).0) (minute % 60) && holds ((read_cron text).1) (minute / 60)

field_eq : Option Field → Option Field → Bool
field_eq (some each) (some each) = true
field_eq (some (exactly n)) (some (exactly m)) = n == m
field_eq (some (steps a b)) (some (steps c d)) = a == c && b == d
field_eq e f = false

-- The fields that an offset's expression should have.
minutes_of : ℕ → ℕ → Option Field
minutes_of cadence offset =
    some (if ltb cadence 60 then steps offset cadence else exactly (offset % 60))

hours_of : ℕ → ℕ → Option Field
hours_of cadence offset = some (
    if leb cadence 60
    then each
    else (if cadence == 1440 then exactly (offset / 60) else steps (offset / 60) (cadence / 60)))

all_below : ℕ → (ℕ → Bool) → Bool
all_below zero p = true
all_below (suc n) p = p n && all_below n p

spelled : ℕ → ℕ → Bool
unfolding field_eq minutes_of hours_of read_cron cron_fields
spelled cadence offset =
    field_eq ((read_cron (cron_fields cadence offset ++ codes " * * ?")).0)
      (minutes_of cadence offset)
    && field_eq ((read_cron (cron_fields cadence offset ++ codes " * * ?")).1)
        (hours_of cadence offset)

all_spelled : List ℕ → Bool
unfolding all_below spelled
all_spelled [] = true
all_spelled (c ∷ cs) = all_below c (spelled c) && all_spelled cs

all_cadences : all_spelled cadences ≡ true
unfolding all_spelled cron_fields int_of_text decimal text_eq
all_cadences = refl

all_below-lem : (n : ℕ) (p : ℕ → Bool) (k : ℕ) → all_below n p ≡ true → k < n → p k ≡ true
unfolding all_below
all_below-lem zero p k h lt = absurd (omega arith)
all_below-lem (suc n) p k h lt = ground (arith, all_below-lem n p k)

-- The fields that an expression has fire at the minutes congruent to the offset.
abbrev Fits : ℕ → Type 0
Fits cadence =
    (offset minute : ℕ)
    → offset < cadence
    → minute < 1440
    → (holds (minutes_of cadence offset) (minute % 60)
        && holds (hours_of cadence offset) (minute / 60))
      ≡ (minute % cadence == offset)

Fits-5 : Fits 5
unfolding holds minutes_of hours_of
Fits-5 o m p q = ground arith

Fits-10 : Fits 10
unfolding holds minutes_of hours_of
Fits-10 o m p q = ground arith

Fits-15 : Fits 15
unfolding holds minutes_of hours_of
Fits-15 o m p q = ground arith

Fits-20 : Fits 20
unfolding holds minutes_of hours_of
Fits-20 o m p q = ground arith

Fits-30 : Fits 30
unfolding holds minutes_of hours_of
Fits-30 o m p q = ground arith

Fits-60 : Fits 60
unfolding holds minutes_of hours_of
Fits-60 o m p q = ground arith

Fits-120 : Fits 120
unfolding holds minutes_of hours_of
Fits-120 o m p q = ground arith

Fits-180 : Fits 180
unfolding holds minutes_of hours_of
Fits-180 o m p q = ground arith

Fits-240 : Fits 240
unfolding holds minutes_of hours_of
Fits-240 o m p q = ground arith

Fits-360 : Fits 360
unfolding holds minutes_of hours_of
Fits-360 o m p q = ground arith

Fits-720 : Fits 720
unfolding holds minutes_of hours_of
Fits-720 o m p q = ground arith

Fits-1440 : Fits 1440
unfolding holds minutes_of hours_of
Fits-1440 o m p q = ground arith

all_fit : All Fits cadences
all_fit = (
  Fits-5,
  (
    Fits-10,
    (
      Fits-15,
      (
        Fits-20,
        (
          Fits-30,
          (Fits-60, (Fits-120, (Fits-180, (Fits-240, (Fits-360, (Fits-720, (Fits-1440, tt))))))),
        ),
      ),
    ),
  ),
)

-- What holds of each cadence of a list holds of one that is found there.
found-lem : (P : ℕ → Type 0) (c : ℕ) (cs : List ℕ) → All P cs → any (λ d. d == c) cs ≡ true → P c
found-lem P c [] h e = absurd (cc e)
found-lem P c (d ∷ cs) h e = elim (Bool-cases (d == c)) [
  | inl same ↦ subst P (ground (arith, same)) h.0
  | inr other ↦ found-lem P c cs h.1 (ground (arith, other, e))
]

All-spelled : (cs : List ℕ) → all_spelled cs ≡ true → All (λ c. all_below c (spelled c) ≡ true) cs
unfolding all_spelled
All-spelled [] h = tt
All-spelled (c ∷ cs) h =
    let (one, rest) = &&-eq-true (all_below c (spelled c)) (all_spelled cs) h in
    (one, All-spelled cs rest)

field_eq-lem : (e f : Option Field) → field_eq e f ≡ true → e ≡ f
unfolding field_eq
field_eq-lem none none h = refl
field_eq-lem none (some f) h = absurd (cc h)
field_eq-lem (some each) none h = absurd (cc h)
field_eq-lem (some (exactly n)) none h = absurd (cc h)
field_eq-lem (some (steps a b)) none h = absurd (cc h)
field_eq-lem (some each) (some each) h = refl
field_eq-lem (some each) (some (exactly m)) h = absurd (cc h)
field_eq-lem (some each) (some (steps c d)) h = absurd (cc h)
field_eq-lem (some (exactly n)) (some each) h = absurd (cc h)
field_eq-lem (some (exactly n)) (some (exactly m)) h = ground (arith, h)
field_eq-lem (some (exactly n)) (some (steps c d)) h = absurd (cc h)
field_eq-lem (some (steps a b)) (some each) h = absurd (cc h)
field_eq-lem (some (steps a b)) (some (exactly m)) h = absurd (cc h)
field_eq-lem (some (steps a b)) (some (steps c d)) h = ground (arith, h)

fires-cron_fields :
    (cadence offset minute : ℕ)
    → is_cadence cadence ≡ true
    → offset < cadence
    → minute < 1440
    → fires (cron_fields cadence offset ++ codes " * * ?") minute ≡ (minute % cadence == offset)
unfolding fires spelled
fires-cron_fields cadence offset minute h p q =
    let text = cron_fields cadence offset ++ codes " * * ?" in
    let every =
      found-lem (λ c. all_below c (spelled c) ≡ true) cadence cadences
        (All-spelled cadences all_cadences) h in
    let (m, n) =
      &&-eq-true (field_eq ((read_cron text).0) (minutes_of cadence offset))
        (field_eq ((read_cron text).1) (hours_of cadence offset))
        (all_below-lem cadence (spelled cadence) offset every p) in
    rw
      (
        field_eq-lem ((read_cron text).0) (minutes_of cadence offset) m,
        field_eq-lem ((read_cron text).1) (hours_of cadence offset) n,
      )
      (found-lem Fits cadence cadences all_fit h offset minute p q)

-- What an expression is for, or what is wrong without one.
pub FiresAt : ℕ → ℕ → Result BadCron Text → Type 0
FiresAt cadence offset (ok text) =
    (minute : ℕ) → minute < 1440 → fires text minute ≡ (minute % cadence == offset)
FiresAt cadence offset (err e) = (is_cadence cadence && ltb offset cadence) ≡ false

-- For every cadence and offset: the expression that is made fires, as it is read back field by field, at exactly the
-- minutes of the day that are congruent to the offset modulo the cadence; and none is made only of a cadence that is not
-- one of the schedules' cadences, or of an offset that is not below it.
pub quartz_cron-fires : (cadence offset : ℕ) → FiresAt cadence offset (quartz_cron cadence offset)
unfolding quartz_cron FiresAt
quartz_cron-fires cadence offset = elim (Bool-cases (is_cadence cadence && ltb offset cadence)) [
  | inl good ↦
      let (known, below) = &&-eq-true (is_cadence cadence) (ltb offset cadence) good in
      rw good (λ minute h. fires-cron_fields cadence offset minute known (ground (arith, below)) h)
  | inr bad ↦ rw bad bad
]
