-- ===== src/Schedules/Offsets.antt =====
-- schedules.offsets and stagger_of: the offsets of a schedule's members.
use lakefed_ingest.Prelude.{
  ℕ, ◌+◌, ◌-◌, ◌*◌, ◌/◌, ◌%◌, ◌<◌, Bool, List, [], ◌∷◌, Text, text_eq, text_lt, if◌then◌else◌, ltb,
  length, sort_by, All, tally, tally-sort_by, ◌≡◌, ◌∙◌, ap, refl, arith,
}
use native.Mathlib.Nat.{mod-lt, mod-eq_of_lt, add-mod_right, mod-add-mod}
use lakefed_ingest.Schedules.{span_of, offsets_from, offsets, stagger_of}

add_mod : (c s k : ℕ) → s < c → k < c → ((s + k) % c + c - s) % c ≡ k
add_mod c s k p q =
    let moved : (s + k) % c + c - s ≡ (s + k) % c + (c - s) = omega arith in
    let whole : s + k + (c - s) ≡ k + c = omega arith in
    ap (λ n. n % c) moved
    ∙ mod-add-mod (s + k) c (c - s)
    ∙ ap (λ n. n % c) whole
    ∙ add-mod_right k c
    ∙ mod-eq_of_lt q

-- An offset less its start, round the cadence, is what was added to the start.
stagger_shift : (c start k : ℕ) → k < c → ((start + k) % c + c - start % c) % c ≡ k
stagger_shift c start k q =
    rw (← mod-add-mod start c k) (add_mod c (start % c) k (mod-lt start (omega arith)) q)

share_lt : (i n span : ℕ) → i < n → 0 < span → i * span / n < span
share_lt i n span p q = grind arith

abbrev start_of : ℕ → ℕ → ℕ
start_of cadence start = if ltb 60 cadence then start else 0

-- A member's offset: below the cadence, and within `span_of` of the schedule's start.
abbrev pub IsNear : ℕ → ℕ → Text × ℕ → Type 0
IsNear cadence start p = (p.1 < cadence) × (stagger_of (p.1) cadence start < span_of cadence)

offsets_from-IsNear :
    (cadence start n i : ℕ) (stagger : Bool) (names : List Text)
    → 0 < cadence
    → i + length names ≡ n
    → All (IsNear cadence start) (offsets_from cadence stagger (start_of cadence start) n i names)
unfolding offsets_from stagger_of
offsets_from-IsNear cadence start n i stagger [] h e = tt
offsets_from-IsNear cadence start n i stagger (c ∷ names) h e =
    let share = if stagger then i * span_of cadence / n else 0 in
    let near : share < span_of cadence =
      ground (arith, share_lt i n (span_of cadence) (omega (arith, e)) (ground arith)) in
    let small : share < cadence = ground (arith, near) in
    let begin = start_of cadence start in
    (
      (mod-lt (begin + share) h, ground (arith, stagger_shift cadence begin share small, near)),
      offsets_from-IsNear cadence start n (i + 1) stagger names h (omega (arith, e)),
    )

abbrev pub is_named : Text → Text × ℕ → Bool
is_named t p = text_eq (p.0) t

tally-offsets_from :
    (t : Text) (cadence start n i : ℕ) (stagger : Bool) (names : List Text)
    → tally (is_named t) (offsets_from cadence stagger start n i names)
      ≡ tally (λ c. text_eq c t) names
unfolding offsets_from
tally-offsets_from t cadence start n i stagger [] = refl
tally-offsets_from t cadence start n i stagger (c ∷ names) =
    omega (arith, tally-offsets_from t cadence start n (i + 1) stagger names)

-- Of any positive cadence: each collection has as many offsets as it stands in the list; each offset is below the
-- cadence; and a member starts, round the cadence, less than the cadence, or an hour if that is less, after the
-- schedule's start, also where the start is later than the cadence.
pub offsets-IsNear :
    (collections : List Text) (cadence start : ℕ) (stagger : Bool) (t : Text)
    → 0 < cadence
    → All (IsNear cadence start) (offsets collections cadence stagger start)
      × (tally (is_named t) (offsets collections cadence stagger start)
          ≡ tally (λ c. text_eq c t) collections)
unfolding offsets
offsets-IsNear collections cadence start stagger t h =
    let names = sort_by text_lt collections in
    (
      offsets_from-IsNear cadence start (length names) 0 stagger names h (omega arith),
      tally-offsets_from t cadence (start_of cadence start) (length names) 0 stagger names
          ∙ tally-sort_by (λ c. text_eq c t) text_lt collections,
    )
