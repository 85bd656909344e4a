-- ===== src/Planner/Detect/Returned.antt =====
-- planner.detect_group on the groups that routing can form: where it could raise.
use lakefed_ingest.Prelude.{
  ℕ, Option, none, some, Bool, true, false, List, [], ◌∷◌, Result, ok, err, ◌>>=◌, if◌then◌else◌,
  ◌≡◌, refl, arith, All, ◌∙◌, sym, subst, ok-injective, ◌++◌,
}
use lakefed_ingest.Control.{ControlRow, Checkpoint, Problem}
use lakefed_ingest.Control.Identity.{identity_values}
use lakefed_ingest.Control.Positions.{ct_position}
use lakefed_ingest.Planner.Rows.{as_problem}
use lakefed_ingest.Planner.Detect.{
  Member, Status, Answer, Queries, Output, Raised, Sorted, falls_back, to_reseed, to_merge, stays,
  located, ahead, not_reset, kept_members, lost_plans, unchanged_row, unchanged_rows, sort_member,
  placed, place_member, sorted_members, items_of, current_output, detected_output, detect_members,
  with_status, ask_status, with_reply, check_tables, check_rest, check_reset, ask_version, none_yet,
  with_version, detect_group, all_current,
}

-- There is a value, and no error was raised.
abbrev pub Returns : {E A : Type 0} → Result E A → Type 0
Returns (ok a) = Unit
Returns (err e) = ⊥

Returns-bind :
    {E A B : Type 0} (m : Result E A) (f : A → Result E B)
    → Returns m
    → ((a : A) → m ≡ ok a → Returns (f a))
    → Returns (m >>= f)
Returns-bind (ok a) f h k = k a refl
Returns-bind (err e) f h k = h

Returns-ok : {E A : Type 0} (m : Result E A) → Returns m → (a : A) × (m ≡ ok a)
Returns-ok (ok a) h = (a, refl)
Returns-ok (err e) h = absurd h

as_problem-Returns : {A : Type 0} (m : Result _ A) → Returns m → Returns (as_problem m)
as_problem-Returns (ok a) h = tt
as_problem-Returns (err e) h = h

-- A row whose checkpoint's version reads and whose engine is known.
unfoldable pub IsReadable : ControlRow × Checkpoint → Type 0
IsReadable m = Returns (ct_position (m.1)) × Returns (identity_values (m.0))

abbrev IsNamed : Member → Type 0
IsNamed m = Returns (identity_values m.cfg)

located-Returns :
    (ms : List (ControlRow × Checkpoint))
    → All IsReadable ms
    → (l : List Member) × (located ms ≡ ok l) × All IsNamed l
unfolding located IsReadable
located-Returns [] h = ([], refl, tt)
located-Returns (m ∷ ms) h =
    let (position, e) = Returns-ok (ct_position (m.1)) (h.0).0 in
    let (later, f, named) = located-Returns ms h.1 in
    (
      record { cfg = m.0; cp = m.1; position = position; begin = none } ∷ later,
      ground (arith, e, f),
      ((h.0).1, named),
    )

not_reset-IsNamed : (reset ms : List Member) → All IsNamed ms → All IsNamed (not_reset reset ms)
unfolding not_reset
not_reset-IsNamed reset [] h = tt
not_reset-IsNamed reset (m ∷ ms) h = ground (arith, not_reset-IsNamed reset ms h.1, h.0)

kept_members-IsNamed :
    (status : Status) (ms : List Member) → All IsNamed ms → All IsNamed (kept_members status ms)
unfolding kept_members
kept_members-IsNamed status [] h = tt
kept_members-IsNamed status (m ∷ ms) h = ground (arith, kept_members-IsNamed status ms h.1, h.0)

module _ (sl : List ℕ) (cur : ℕ) where
  unchanged_row-Returns : (m : Member) → IsNamed m → Returns (unchanged_row sl cur m)
  unfolding unchanged_row
  unchanged_row-Returns m h =
      Returns-bind (as_problem (identity_values m.cfg)) _
        (as_problem-Returns (identity_values m.cfg) h) (λ identity e. tt)

  unchanged_rows-Returns : (ms : List Member) → All IsNamed ms → Returns (unchanged_rows sl cur ms)
  unfolding unchanged_rows
  unchanged_rows-Returns [] h = tt
  unchanged_rows-Returns (m ∷ ms) h =
      Returns-bind (unchanged_row sl cur m) _ (unchanged_row-Returns m h.0) (λ row e.
        Returns-bind (unchanged_rows sl cur ms) _ (unchanged_rows-Returns ms h.1) (λ rows f. tt))

  placed-Returns : (m : Member) (s : Sorted) → IsNamed m → Returns (placed sl cur m s)
  unfolding placed
  placed-Returns m falls_back h = tt
  placed-Returns m to_reseed h = tt
  placed-Returns m to_merge h = tt
  placed-Returns m stays h =
      Returns-bind (unchanged_row sl cur m) _ (unchanged_row-Returns m h) (λ row e. tt)

  sorted_members-Returns :
      (answer : Answer) (ms : List Member)
      → All IsNamed ms
      → Returns (sorted_members sl cur answer ms)
  unfolding sorted_members place_member
  sorted_members-Returns answer [] h = tt
  sorted_members-Returns answer (m ∷ ms) h =
      Returns-bind (place_member sl cur answer m) _ (placed-Returns m (sort_member answer m) h.0)
        (λ place e.
          Returns-bind (sorted_members sl cur answer ms) _ (sorted_members-Returns answer ms h.1)
            (λ out f. tt))

  detected_output-Returns :
      (ms : List Member) (out : Output) (r : Result Raised Answer)
      → All IsNamed ms
      → Returns (detected_output sl cur ms out r)
  unfolding detected_output
  detected_output-Returns ms out (err raised) h = tt
  detected_output-Returns ms out (ok answer) h =
      Returns-bind (sorted_members sl cur answer ms) _ (sorted_members-Returns answer ms h)
        (λ o e. tt)

  current_output-Returns :
      (ms : List Member) (out : Output) → All IsNamed ms → Returns (current_output sl cur ms out)
  unfolding current_output
  current_output-Returns ms out h =
      Returns-bind (unchanged_rows sl cur ms) _ (unchanged_rows-Returns ms h) (λ rows e. tt)

  either-Returns :
      (b : Bool) (m n : Result Problem Output)
      → Returns m
      → Returns n
      → Returns (if b then m else n)
  either-Returns true m n h k = h
  either-Returns false m n h k = k

  module _ (q : Queries) (cfg0 : ControlRow) where
    detect_members-Returns :
        (ms : List Member) (out : Output)
        → All IsNamed ms
        → Returns (detect_members sl q cfg0 cur ms out)
    unfolding detect_members
    detect_members-Returns [] out h = tt
    detect_members-Returns (m ∷ ms) out h =
        either-Returns (all_current (m ∷ ms) cur) (current_output sl cur (m ∷ ms) out)
          (detected_output sl cur (m ∷ ms) out (q.detect cfg0 (items_of (m ∷ ms))))
          (current_output-Returns (m ∷ ms) out h)
          (detected_output-Returns (m ∷ ms) out (q.detect cfg0 (items_of (m ∷ ms))) h)

    with_status-Returns :
        (status : Status) (ms : List Member) (out : Output)
        → All IsNamed ms
        → Returns (with_status sl q cfg0 cur status ms out)
    unfolding with_status
    with_status-Returns status ms out h =
        detect_members-Returns (kept_members status ms)
          (record out { plans = out.plans ++ lost_plans status ms })
          (kept_members-IsNamed status ms h)

    with_reply-Returns :
        (r : Option (Result Raised Status)) (ms : List Member) (out : Output)
        → All IsNamed ms
        → Returns (with_reply sl q cfg0 cur r ms out)
    unfolding with_reply
    with_reply-Returns none ms out h = detect_members-Returns ms out h
    with_reply-Returns (some (err raised)) ms out h = tt
    with_reply-Returns (some (ok status)) ms out h = with_status-Returns status ms _ h

    check_rest-Returns :
        (status : Option Status) (ms : List Member) (out : Output)
        → All IsNamed ms
        → Returns (check_rest sl q cfg0 cur status ms out)
    unfolding check_rest check_tables
    check_rest-Returns status [] out h = tt
    check_rest-Returns (some status) (m ∷ ms) out h = with_status-Returns status (m ∷ ms) out h
    check_rest-Returns none (m ∷ ms) out h = with_reply-Returns (ask_status q cfg0) (m ∷ ms) out h

    check_reset-Returns :
        (status : Option Status) (ms : List Member) (out : Output)
        → All IsNamed ms
        → Returns (check_reset sl q cfg0 cur status ms out)
    unfolding check_reset
    check_reset-Returns status ms out h =
        check_rest-Returns status (not_reset (ahead cur ms) ms) _
          (not_reset-IsNamed (ahead cur ms) ms h)

with_version-Returns :
    (sl : List ℕ) (q : Queries) (cfg0 : ControlRow) (ms : List (ControlRow × Checkpoint))
    (reply : Result Raised (Option ℕ × Option Status))
    → All IsReadable ms
    → Returns (with_version sl q cfg0 ms reply)
unfolding with_version
with_version-Returns sl q cfg0 ms (err raised) h = tt
with_version-Returns sl q cfg0 ms (ok (none, status)) h = tt
with_version-Returns sl q cfg0 ms (ok (some cur, status)) h =
    let (members, e, named) = located-Returns ms h in
    Returns-bind (located ms) _ (rw e tt) (λ l f.
      check_reset-Returns sl cur q cfg0 status l (none_yet cur)
        (subst (All IsNamed) (ok-injective (sym e ∙ f)) named))

-- Whatever the source answers, and wherever a query of it fails: detection returns for a group whose checkpoints'
-- versions can be read and whose rows are of known engines.
pub detect_group-total :
    (sl : List ℕ) (q : Queries) (m : ControlRow × Checkpoint) (ms : List (ControlRow × Checkpoint))
    → All IsReadable (m ∷ ms)
    → (out : Output) × (detect_group sl q (m ∷ ms) ≡ ok out)
unfolding detect_group
detect_group-total sl q m ms h =
    Returns-ok (with_version sl q (m.0) (m ∷ ms) (ask_version q (m.0)))
      (with_version-Returns sl q (m.0) (m ∷ ms) (ask_version q (m.0)) h)
