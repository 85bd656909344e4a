-- ===== src/Planner/Detect/Accounts.antt =====
-- planner.detect_group: how often a table stands in each part of its output.
use lakefed_ingest.Prelude.{
  ℕ, ◌+◌, true, List, [], ◌∷◌, ◌++◌, map, ◌≡◌, refl, arith, OnOk, OnOk-ok, OnOk-bind, All, any, ltb,
  ◌==◌, count, count-append, sym, Bool-cases, inl, inr, All-map, All-and, ◌∙◌,
}
use lakefed_ingest.Planner.Detect.{
  Member, Status, Answer, Output, failures, DetectError, ahead, not_reset, lost_plans, kept_members,
  unchanged_row, unchanged_rows, place_member, sorted_members,
}

abbrev pub member_ids : List Member → List ℕ
member_ids = map (λ m. m.cfg.id)

-- The control ids that an output speaks of: planned, unchanged or failed.
abbrev pub answered_ids : Output → List ℕ
answered_ids out =
    map (λ p. p.cfg.id) out.plans
    ++ (map (λ u. u.control_id) out.unchanged ++ map (λ f. f.cfg.id) out.failed)

-- How often an output speaks of a control id.
abbrev pub answers : ℕ → Output → ℕ
answers i out =
    count i (map (λ p. p.cfg.id) out.plans)
    + (count i (map (λ u. u.control_id) out.unchanged) + count i (map (λ f. f.cfg.id) out.failed))

pub answers-eq-count : (i : ℕ) (out : Output) → answers i out ≡ count i (answered_ids out)
answers-eq-count i out =
    let plans = map (λ p. p.cfg.id) out.plans in
    let unchanged = map (λ u. u.control_id) out.unchanged in
    let failed = map (λ f. f.cfg.id) out.failed in
    omega (arith, count-append i plans (unchanged ++ failed), count-append i unchanged failed)

module _ (sl : List ℕ) (cur : ℕ) where
  pub unchanged_rows-ids :
      (ms : List Member)
      → OnOk (λ rows. map (λ u. u.control_id) rows ≡ member_ids ms) (unchanged_rows sl cur ms)
  unfolding unchanged_rows unchanged_row
  unchanged_rows-ids [] = refl
  unchanged_rows-ids (m ∷ ms) = ground (arith, unchanged_rows-ids ms)

  place_member-answers :
      (answer : Answer) (m : Member) (out : Output) (i : ℕ)
      → OnOk
          (λ place. answers i (place out) ≡ count i (m.cfg.id ∷ []) + answers i out)
          (place_member sl cur answer m)
  unfolding place_member unchanged_row
  place_member-answers answer m out i = ground arith

  pub sorted_members-answers :
      (answer : Answer) (ms : List Member) (i : ℕ)
      → OnOk (λ out. answers i out ≡ count i (member_ids ms)) (sorted_members sl cur answer ms)
  unfolding sorted_members
  sorted_members-answers answer [] i = refl
  sorted_members-answers answer (m ∷ ms) i =
      OnOk-bind _ (place_member sl cur answer m) _ λ place placed.
        OnOk-bind _ (sorted_members sl cur answer ms) _ λ later done. omega (
          arith,
          OnOk-ok (λ f. answers i (f later) ≡ count i (m.cfg.id ∷ []) + answers i later) placed
              (place_member-answers answer m later i),
          OnOk-ok (λ out. answers i out ≡ count i (member_ids ms)) done
              (sorted_members-answers answer ms i),
          count-append i (m.cfg.id ∷ []) (member_ids ms),
        )

  pub failures-ids :
      (e : DetectError) (ms : List Member) → map (λ f. f.cfg.id) (failures e ms) ≡ member_ids ms
  failures-ids e [] = refl
  failures-ids e (m ∷ ms) = cc (failures-ids e ms)

  pub check_status-ids :
      (status : Status) (ms : List Member) (i : ℕ)
      → count i (map (λ p. p.cfg.id) (lost_plans status ms))
          + count i (member_ids (kept_members status ms))
        ≡ count i (member_ids ms)
  unfolding lost_plans kept_members
  check_status-ids status [] i = refl
  check_status-ids status (m ∷ ms) i = ground (arith, check_status-ids status ms i)

-- The members that `not_reset` leaves out are those that are ahead.
module _ (cur : ℕ) (position_of : ℕ → ℕ) where
  abbrev pub Consistent : List Member → Type 0
  Consistent = All (λ m. m.position ≡ position_of m.cfg.id)

  ahead-only :
      (i : ℕ) (ms : List Member)
      → Consistent ms
      → any (λ r. r.cfg.id == i) (ahead cur ms) ≡ true
      → ltb cur (position_of i) ≡ true
  unfolding ahead
  ahead-only i [] h found = cc
  ahead-only i (m ∷ ms) h found = ground (arith, ahead-only i ms h.1)

  not_reset-count :
      (reset : List Member) (ms : List Member) (i : ℕ)
      → All (λ m. any (λ r. r.cfg.id == m.cfg.id) reset ≡ ltb cur m.position) ms
      → count i (member_ids (ahead cur ms)) + count i (member_ids (not_reset reset ms))
        ≡ count i (member_ids ms)
  unfolding ahead not_reset
  not_reset-count reset [] i h = refl
  not_reset-count reset (m ∷ ms) i h = ground (arith, not_reset-count reset ms i h.1)

  abbrev IsAhead : List Member → Member → Type 0
  IsAhead ms m = ltb cur m.position ≡ true → any (λ r. r.cfg.id == m.cfg.id) (ahead cur ms) ≡ true

  IsAhead-cons : (m : Member) (ms : List Member) (x : Member) → IsAhead ms x → IsAhead (m ∷ ms) x
  unfolding ahead
  IsAhead-cons m ms x h t = ground (arith, h t)

  All-IsAhead : (ms : List Member) → All (IsAhead ms) ms
  unfolding ahead
  All-IsAhead [] = tt
  All-IsAhead (m ∷ ms) = (ground arith, All-map ms (IsAhead-cons m ms) (All-IsAhead ms))

  pub ahead-exact :
      (ms : List Member)
      → Consistent ms
      → All (λ m. any (λ r. r.cfg.id == m.cfg.id) (ahead cur ms) ≡ ltb cur m.position) ms
  ahead-exact ms h =
      All-map ms (λ m (has, at). exact m has at)
        (All-and (IsAhead ms) (λ m. m.position ≡ position_of m.cfg.id) ms (All-IsAhead ms) h)
    where
      exact :
          (m : Member)
          → IsAhead ms m
          → m.position ≡ position_of m.cfg.id
          → any (λ r. r.cfg.id == m.cfg.id) (ahead cur ms) ≡ ltb cur m.position
      exact m has at = elim (Bool-cases (any (λ r. r.cfg.id == m.cfg.id) (ahead cur ms))) [
        | inl found ↦ rw found (rw at (sym (ahead-only m.cfg.id ms h found)))
        | inr absent ↦ elim (Bool-cases (ltb cur m.position)) [
          | inl t ↦ cc (has t)
          | inr f ↦ absent ∙ sym f
        ]
      ]

  pub reset-count :
      (ms : List Member) (i : ℕ)
      → Consistent ms
      → count i (member_ids (ahead cur ms)) + count i (member_ids (not_reset (ahead cur ms) ms))
        ≡ count i (member_ids ms)
  reset-count ms i h = not_reset-count (ahead cur ms) ms i (ahead-exact ms h)
