-- ===== src/Planner/Detect/Changes.antt =====
-- planner.detect_group and ct_engine's classification, against what the source says of its tables' changes.
use lakefed_ingest.Prelude.{
  ℕ, ◌≤◌, ◌<◌, Option, none, some, Bool, true, false, List, [], ◌∷◌, ◌≡◌, refl, Result, ok, err,
  arith, OnOk, OnOk-ok, OnOk-bind, All, any, ltb, ◌==◌, subst, sym, Bool-cases, inl, inr,
}
use lakefed_ingest.Control.{ControlRow, Checkpoint}
use lakefed_ingest.Control.Identity.{identity_values}
use lakefed_ingest.Planner.Rows.{as_problem}
use lakefed_ingest.Planner.Detect.{
  Member, Status, Item, Answer, Queries, Output, UnchangedRow, Raised, located, ahead, not_reset,
  all_current, items_of, kept_members, unchanged_row, unchanged_rows, sort_entry, sort_member,
  Sorted, stays, placed, place_member, sorted_members, detected_output, detect_members, with_status,
  with_reply, none_yet, ask_version, with_version, check_rest, check_reset, detect_group,
}
use lakefed_ingest.Planner.Detect.Accounts.{Consistent, ahead-exact}
use lakefed_ingest.Planner.Detect.Total.{HasCheckpoint, position_at, located-Consistent}

-- `changed_at i v`: the source's table of control row `i` has a change of version `v`. This is what
-- the detection query's answer says of an item: where the checkpoint is still valid and no change
-- exists after it, the table has none up to `cur`, which was captured before the query ran.
abbrev pub IsSound : (ℕ → ℕ → Type 0) → ℕ → Answer → List Item → Type 0
IsSound changed_at cur answer = All (λ it.
    (mv : ℕ)
    → answer.results it.control_id ≡ some (some mv, false)
    → mv ≤ it.checkpoint
    → (v : ℕ) → it.checkpoint < v
    → v ≤ cur
    → ¬ changed_at it.control_id v)

module _ (changed_at : ℕ → ℕ → Type 0) (position_of : ℕ → ℕ) (cur : ℕ) where
  -- Nothing happened to table `i` after the position `p`, up to `cur`.
  abbrev Silent : ℕ → ℕ → Type 0
  Silent i p = (v : ℕ) → p < v → v ≤ cur → ¬ changed_at i v

  abbrev pub IsQuiet : UnchangedRow → Type 0
  IsQuiet u =
      (u.cur ≡ cur)
      × (position_of u.control_id ≤ cur)
      × Silent u.control_id (position_of u.control_id)

  abbrev IsReady : Member → Type 0
  IsReady m = (m.position ≡ position_of m.cfg.id) × (m.position ≤ cur)

  module _ (sl : List ℕ) where
    unchanged_row-IsQuiet :
        (m : Member)
        → IsReady m
        → Silent m.cfg.id m.position
        → OnOk IsQuiet (unchanged_row sl cur m)
    unfolding unchanged_row
    unchanged_row-IsQuiet m r s =
        OnOk-bind IsQuiet (as_problem (identity_values m.cfg)) _
          λ identity e. (refl, subst (λ p. p ≤ cur) r.0 r.1, subst (Silent m.cfg.id) r.0 s)

    unchanged_rows-IsQuiet :
        (ms : List Member)
        → All IsReady ms
        → all_current ms cur ≡ true
        → OnOk (All IsQuiet) (unchanged_rows sl cur ms)
    unfolding unchanged_rows all_current
    unchanged_rows-IsQuiet [] r c = tt
    unchanged_rows-IsQuiet (m ∷ ms) r c =
        OnOk-bind (All IsQuiet) (unchanged_row sl cur m) _ λ row e.
          OnOk-bind (All IsQuiet) (unchanged_rows sl cur ms) _ λ later f. (
            OnOk-ok IsQuiet e
                (unchanged_row-IsQuiet m r.0 (λ v after upto at. absurd (ground arith))),
            OnOk-ok (All IsQuiet) f (unchanged_rows-IsQuiet ms r.1 (ground arith)),
          )

  sort_entry-stays :
      (p : ℕ) (e : Option (Option ℕ × Bool))
      → sort_entry p e ≡ stays
      → (mv : ℕ) × (e ≡ some (some mv, false)) × (mv ≤ p)
  unfolding sort_entry
  sort_entry-stays p none h = absurd (ground arith)
  sort_entry-stays p (some (none, c)) h = absurd (ground arith)
  sort_entry-stays p (some (some mv, c)) h = (mv, ground arith, ground arith)

  sort_member-stays :
      (answer : Answer) (m : Member)
      → sort_member answer m ≡ stays
      → sort_entry m.position (answer.results m.cfg.id) ≡ stays
  unfolding sort_member
  sort_member-stays answer m h = ground arith

  placed-IsQuiet :
      (sl : List ℕ) (m : Member) (to : Sorted) (out : Output)
      → IsReady m
      → (to ≡ stays → Silent m.cfg.id m.position)
      → All IsQuiet out.unchanged
      → OnOk (λ place. All IsQuiet (place out).unchanged) (placed sl cur m to)
  unfolding placed
  placed-IsQuiet sl m stays out r s q =
      OnOk-bind (λ place. All IsQuiet (place out).unchanged) (unchanged_row sl cur m) _
        λ row e. (OnOk-ok IsQuiet e (unchanged_row-IsQuiet sl m r (s refl)), q)
  placed-IsQuiet sl m _ out r s q = q

  module _ (sl : List ℕ) (answer : Answer) where
    stays-Silent :
        (m : Member)
        → IsSound changed_at cur answer (items_of (m ∷ []))
        → sort_member answer m ≡ stays
        → Silent m.cfg.id m.position
    stays-Silent m sound h =
        let (mv, found, valid) =
          sort_entry-stays m.position (answer.results m.cfg.id) (sort_member-stays answer m h) in
        sound.0 mv found valid

    sorted_members-IsQuiet :
        (ms : List Member)
        → All IsReady ms
        → IsSound changed_at cur answer (items_of ms)
        → OnOk (λ out. All IsQuiet out.unchanged) (sorted_members sl cur answer ms)
    unfolding sorted_members place_member
    sorted_members-IsQuiet [] r s = tt
    sorted_members-IsQuiet (m ∷ ms) r s =
        OnOk-bind (λ out. All IsQuiet out.unchanged) (place_member sl cur answer m) _
          λ place e.
            OnOk-bind (λ out. All IsQuiet out.unchanged) (sorted_members sl cur answer ms) _
              λ later f.
                OnOk-ok (λ g. All IsQuiet (g later).unchanged) e
                  (placed-IsQuiet sl m (sort_member answer m) later r.0 (stays-Silent m (s.0, tt)) (
                    OnOk-ok (λ out. All IsQuiet out.unchanged) f
                      (sorted_members-IsQuiet ms r.1 s.1)))

  abbrev StaysQuiet : Output → Type 0
  StaysQuiet out = All IsQuiet out.unchanged

  module _ (sl : List ℕ) (q : Queries) (cfg0 : ControlRow)
      (sound : (items : List Item) (answer : Answer)
        → q.detect cfg0 items ≡ ok answer
        → IsSound changed_at cur answer items) where
    detected_output-IsQuiet :
        (ms : List Member) (out : Output) (reply : Result Raised Answer)
        → q.detect cfg0 (items_of ms) ≡ reply
        → All IsReady ms
        → StaysQuiet out
        → OnOk StaysQuiet (detected_output sl cur ms out reply)
    unfolding detected_output
    detected_output-IsQuiet ms out (err raised) e r h = h
    detected_output-IsQuiet ms out (ok answer) e r h =
        OnOk-bind StaysQuiet (sorted_members sl cur answer ms) _ λ done f.
          OnOk-ok StaysQuiet f
            (sorted_members-IsQuiet sl answer ms r (sound (items_of ms) answer e))

    detect_members-IsQuiet :
        (ms : List Member) (out : Output)
        → All IsReady ms
        → StaysQuiet out
        → OnOk StaysQuiet (detect_members sl q cfg0 cur ms out)
    unfolding detect_members
    detect_members-IsQuiet [] out r h = h
    detect_members-IsQuiet (m ∷ ms) out r h = elim (Bool-cases (all_current (m ∷ ms) cur)) [
      | inl t ↦ rw t (
          OnOk-bind StaysQuiet (unchanged_rows sl cur (m ∷ ms)) _
            λ rows e. OnOk-ok (All IsQuiet) e (unchanged_rows-IsQuiet sl (m ∷ ms) r t))
      | inr t ↦ rw t (detected_output-IsQuiet (m ∷ ms) out _ refl r h)
    ]

    kept_members-IsReady :
        (status : Status) (ms : List Member) → All IsReady ms → All IsReady (kept_members status ms)
    unfolding kept_members
    kept_members-IsReady status [] r = tt
    kept_members-IsReady status (m ∷ ms) r = ground (arith, kept_members-IsReady status ms r.1)

    with_status-IsQuiet :
        (status : Status) (ms : List Member) (out : Output)
        → All IsReady ms
        → StaysQuiet out
        → OnOk StaysQuiet (with_status sl q cfg0 cur status ms out)
    unfolding with_status
    with_status-IsQuiet status ms out r h =
        detect_members-IsQuiet (kept_members status ms) _ (kept_members-IsReady status ms r) h

    with_reply-IsQuiet :
        (reply : Option (Result Raised Status)) (ms : List Member) (out : Output)
        → All IsReady ms
        → StaysQuiet out
        → OnOk StaysQuiet (with_reply sl q cfg0 cur reply ms out)
    unfolding with_reply
    with_reply-IsQuiet none ms out r h = detect_members-IsQuiet ms out r h
    with_reply-IsQuiet (some (err raised)) ms out r h = h
    with_reply-IsQuiet (some (ok status)) ms out r h = with_status-IsQuiet status ms _ r h

    check_rest-IsQuiet :
        (status : Option Status) (ms : List Member) (out : Output)
        → All IsReady ms
        → StaysQuiet out
        → OnOk StaysQuiet (check_rest sl q cfg0 cur status ms out)
    unfolding check_rest
    check_rest-IsQuiet status [] out r h = h
    check_rest-IsQuiet (some status) (m ∷ ms) out r h = with_status-IsQuiet status (m ∷ ms) out r h
    check_rest-IsQuiet none (m ∷ ms) out r h = with_reply-IsQuiet _ (m ∷ ms) out r h

    not_reset-IsReady :
        (reset ms : List Member)
        → All (λ m. any (λ x. x.cfg.id == m.cfg.id) reset ≡ ltb cur m.position) ms
        → Consistent cur position_of ms
        → All IsReady (not_reset reset ms)
    unfolding not_reset
    not_reset-IsReady reset [] e c = tt
    not_reset-IsReady reset (m ∷ ms) e c = ground (arith, not_reset-IsReady reset ms e.1 c.1)

    check_reset-IsQuiet :
        (status : Option Status) (ms : List Member)
        → Consistent cur position_of ms
        → OnOk StaysQuiet (check_reset sl q cfg0 cur status ms (none_yet cur))
    unfolding check_reset
    check_reset-IsQuiet status ms c =
        check_rest-IsQuiet status (not_reset (ahead cur ms) ms) _
          (not_reset-IsReady (ahead cur ms) ms (ahead-exact cur position_of ms c) c) tt

-- A table that a run calls unchanged is not ahead of the version `cur` that the database answered,
-- its row carries that version, and its source has no change after its checkpoint's position up to
-- `cur`: so moving the checkpoint to `cur` skips nothing. This asks of the source only that the
-- detection query tells the truth about the items that it answers.
pub detect_group-IsQuiet :
    (changed_at : ℕ → ℕ → Type 0) (sl : List ℕ) (q : Queries) (checkpoints : ℕ → Option Checkpoint)
    (m : ControlRow × Checkpoint) (ms : List (ControlRow × Checkpoint)) (cur : ℕ)
    (status : Option Status) (out : Output)
    → ask_version q m.0 ≡ ok (some cur, status)
    → ((items : List Item) (answer : Answer)
        → q.detect m.0 items ≡ ok answer
        → IsSound changed_at cur answer items)
    → All (HasCheckpoint checkpoints) (m ∷ ms)
    → detect_group sl q (m ∷ ms) ≡ ok out
    → All (IsQuiet changed_at (λ i. position_at (checkpoints i)) cur) out.unchanged
unfolding detect_group with_version
detect_group-IsQuiet changed_at sl q checkpoints m ms cur status out asked sound h e =
    let position_of = λ (i : ℕ). position_at (checkpoints i) in
    let Quiet = λ (o : Output). All (IsQuiet changed_at position_of cur) o.unchanged in
    OnOk-ok Quiet e (
      subst (λ reply. OnOk Quiet (with_version sl q m.0 (m ∷ ms) reply)) (sym asked)
        (OnOk-bind Quiet (located (m ∷ ms)) _ λ members found.
          check_reset-IsQuiet changed_at position_of cur sl q m.0 sound status members (
            OnOk-ok (Consistent cur position_of) found
              (located-Consistent cur checkpoints (m ∷ ms) h))))
