-- ===== src/Planner/Detect/Total.antt =====
-- planner.detect_group, whole: the tables that its output answers for.
use lakefed_ingest.Prelude.{
  ℕ, suc, ◌+◌, Option, none, some, List, [], ◌∷◌, ◌++◌, map, ◌≡◌, refl, Result, ok, err, arith,
  OnOk, OnOk-ok, OnOk-bind, OnOk-map, ap, All, count, count-map-append, sym, ◌∙◌, Bool-cases, inl,
  inr,
}
use lakefed_ingest.Control.{ControlRow, Checkpoint, Problem}
use lakefed_ingest.Control.Positions.{ct_position}
use lakefed_ingest.Planner.Plans.{Plan, ct_version_reset}
use lakefed_ingest.Planner.Detect.{
  Member, Status, Answer, Queries, Output, DetectError, located, ahead, not_reset, lost_plans,
  kept_members, unchanged_rows, place_member, sorted_members, current_output, detected_output,
  detect_members, all_current, Raised, detection_failed, Failure, with_status, with_reply, none_yet,
  ask_status, ask_version, with_version, check_rest, status_failed, version_failed, ct_not_enabled,
  check_reset, detect_group, reseeded, all_failed,
}
use lakefed_ingest.Planner.Detect.Accounts.{
  member_ids, answered_ids, answers, answers-eq-count, unchanged_rows-ids, sorted_members-answers,
  failures-ids, check_status-ids, reset-count, Consistent,
}

abbrev plan_count : ℕ → Output → ℕ
plan_count i out = count i (map (λ p. p.cfg.id) out.plans)

abbrev PlansOnly : Output → Type 0
PlansOnly out = (out.unchanged ≡ []) × (out.failed ≡ [])

module _ (sl : List ℕ) (q : Queries) (cfg0 : ControlRow) (cur : ℕ) where
  sorted_members-failed :
      (answer : Answer) (ms : List Member)
      → OnOk (λ out. out.failed ≡ []) (sorted_members sl cur answer ms)
  unfolding sorted_members place_member
  sorted_members-failed answer [] = refl
  sorted_members-failed answer (m ∷ ms) = ground (arith, sorted_members-failed answer ms)

  current_output-answers :
      (ms : List Member) (out : Output) (i : ℕ)
      → PlansOnly out
      → OnOk
          (λ o. answers i o ≡ plan_count i out + count i (member_ids ms))
          (current_output sl cur ms out)
  unfolding current_output
  current_output-answers ms out i (u, f) = OnOk-bind _ (unchanged_rows sl cur ms) _ λ rows e.
      let ids =
        OnOk-ok (λ r. map (λ u. u.control_id) r ≡ member_ids ms) e (unchanged_rows-ids sl cur ms) in
      rw (f, ids) (omega arith)

  detected_output-answers :
      (ms : List Member) (out : Output) (i : ℕ) (reply : Result Raised Answer)
      → PlansOnly out
      → OnOk
          (λ o. answers i o ≡ plan_count i out + count i (member_ids ms))
          (detected_output sl cur ms out reply)
  unfolding detected_output
  detected_output-answers ms out i (err raised) (u, f) =
      rw (u, failures-ids sl cur (detection_failed raised) ms) (omega arith)
  detected_output-answers ms out i (ok answer) (u, f) =
      OnOk-bind _ (sorted_members sl cur answer ms) _ λ done e.
        let none_failed = OnOk-ok (λ o. o.failed ≡ []) e (sorted_members-failed answer ms) in
        let told =
          OnOk-ok (λ o. answers i o ≡ count i (member_ids ms)) e
            (sorted_members-answers sl cur answer ms i) in
        rw f (
          omega (
            arith,
            told,
            ap (λ (l : List Failure). count i (map (λ x. x.cfg.id) l)) none_failed,
            count-map-append i (λ (p : Plan). p.cfg.id) out.plans done.plans,
          ))

  detect_members-answers :
      (ms : List Member) (out : Output) (i : ℕ)
      → PlansOnly out
      → OnOk
          (λ o. answers i o ≡ plan_count i out + count i (member_ids ms))
          (detect_members sl q cfg0 cur ms out)
  unfolding detect_members
  detect_members-answers [] out i (u, f) = rw (u, f) (omega arith)
  detect_members-answers (m ∷ ms) out i h = elim (Bool-cases (all_current (m ∷ ms) cur)) [
    | inl t ↦ rw t (current_output-answers (m ∷ ms) out i h)
    | inr t ↦ rw t (detected_output-answers (m ∷ ms) out i _ h)
  ]

  with_status-answers :
      (status : Status) (ms : List Member) (out : Output) (i : ℕ)
      → PlansOnly out
      → OnOk
          (λ o. answers i o ≡ plan_count i out + count i (member_ids ms))
          (with_status sl q cfg0 cur status ms out)
  unfolding with_status
  with_status-answers status ms out i h =
      let after = record out { plans = out.plans ++ lost_plans status ms } in
      OnOk-map _ _
        (λ o e. omega (
          arith,
          e,
          check_status-ids sl cur status ms i,
          count-map-append i (λ (p : Plan). p.cfg.id) out.plans (lost_plans status ms),
        ))
        (detect_members sl q cfg0 cur (kept_members status ms) after)
        (detect_members-answers (kept_members status ms) after i h)

  with_reply-answers :
      (reply : Option (Result Raised Status)) (ms : List Member) (out : Output) (i : ℕ)
      → PlansOnly out
      → OnOk
          (λ o. answers i o ≡ plan_count i out + count i (member_ids ms))
          (with_reply sl q cfg0 cur reply ms out)
  unfolding with_reply
  with_reply-answers none ms out i h = detect_members-answers ms out i h
  with_reply-answers (some (err raised)) ms out i (u, f) =
      rw (u, failures-ids sl cur (status_failed raised) ms) (omega arith)
  with_reply-answers (some (ok status)) ms out i h =
      with_status-answers status ms (record out { queries = suc out.queries }) i h

  check_rest-answers :
      (status : Option Status) (ms : List Member) (out : Output) (i : ℕ)
      → PlansOnly out
      → OnOk
          (λ o. answers i o ≡ plan_count i out + count i (member_ids ms))
          (check_rest sl q cfg0 cur status ms out)
  unfolding check_rest
  check_rest-answers status [] out i (u, f) = rw (u, f) (omega arith)
  check_rest-answers (some status) (m ∷ ms) out i h = with_status-answers status (m ∷ ms) out i h
  check_rest-answers none (m ∷ ms) out i h = with_reply-answers (ask_status q cfg0) (m ∷ ms) out i h

  reset-ids :
      (ms : List Member) (i : ℕ)
      → count i (map (λ p. p.cfg.id) (map (reseeded (some ct_version_reset)) ms))
        ≡ count i (member_ids ms)
  reset-ids [] i = refl
  reset-ids (m ∷ ms) i = ground (arith, reset-ids ms i)

  check_reset-answers :
      (position_of : ℕ → ℕ) (status : Option Status) (ms : List Member) (i : ℕ)
      → Consistent cur position_of ms
      → OnOk
          (λ o. answers i o ≡ count i (member_ids ms))
          (check_reset sl q cfg0 cur status ms (none_yet cur))
  unfolding check_reset
  check_reset-answers position_of status ms i h =
      let reset = ahead cur ms in
      let planned = record (none_yet cur) {
        plans = map (reseeded (some ct_version_reset)) reset;
      } in
      OnOk-map _ _ (λ o e. omega (arith, e, reset-ids reset i, reset-count cur position_of ms i h))
        (check_rest sl q cfg0 cur status (not_reset reset ms) planned)
        (check_rest-answers status (not_reset reset ms) planned i (refl, refl))

abbrev pub row_ids : List (ControlRow × Checkpoint) → List ℕ
row_ids = map (λ m. m.0.id)

-- Each member has the checkpoint that its control id has.
abbrev pub HasCheckpoint : (ℕ → Option Checkpoint) → ControlRow × Checkpoint → Type 0
HasCheckpoint checkpoints m = checkpoints m.0.id ≡ some m.1

version_or_zero : Result Problem ℕ → ℕ
version_or_zero (ok v) = v
version_or_zero (err e) = 0

unfoldable pub position_at : Option Checkpoint → ℕ
unfolding version_or_zero
position_at none = 0
position_at (some cp) = version_or_zero (ct_position cp)

located-ids :
    (ms : List (ControlRow × Checkpoint)) → OnOk (λ l. member_ids l ≡ row_ids ms) (located ms)
unfolding located
located-ids [] = refl
located-ids (m ∷ ms) = ground (arith, located-ids ms)

pub located-Consistent :
    (cur : ℕ) (checkpoints : ℕ → Option Checkpoint) (ms : List (ControlRow × Checkpoint))
    → All (HasCheckpoint checkpoints) ms
    → OnOk (Consistent cur (λ i. position_at (checkpoints i))) (located ms)
unfolding located position_at
located-Consistent cur checkpoints [] h = tt
located-Consistent cur checkpoints (m ∷ ms) h = OnOk-bind _ (ct_position m.1) _ λ v e.
    OnOk-bind _ (located ms) _ λ later found. (
      ground (arith, h.0),
      OnOk-ok (Consistent cur (λ i. position_at (checkpoints i))) found
          (located-Consistent cur checkpoints ms h.1),
    )

all_failed-ids :
    (e : DetectError) (ms : List (ControlRow × Checkpoint))
    → map (λ f. f.cfg.id) (all_failed e ms) ≡ row_ids ms
all_failed-ids e [] = refl
all_failed-ids e (m ∷ ms) = cc (all_failed-ids e ms)

module _ (sl : List ℕ) (q : Queries) (checkpoints : ℕ → Option Checkpoint) where
  with_version-answers :
      (cfg0 : ControlRow) (ms : List (ControlRow × Checkpoint)) (i : ℕ)
      (reply : Result Raised (Option ℕ × Option Status))
      → All (HasCheckpoint checkpoints) ms
      → OnOk (λ o. answers i o ≡ count i (row_ids ms)) (with_version sl q cfg0 ms reply)
  unfolding with_version
  with_version-answers cfg0 ms i (err raised) h =
      rw (all_failed-ids (version_failed raised) ms) (omega arith)
  with_version-answers cfg0 ms i (ok (none, status)) h =
      rw (all_failed-ids ct_not_enabled ms) (omega arith)
  with_version-answers cfg0 ms i (ok (some cur, status)) h =
      OnOk-bind _ (located ms) _ λ members found.
        let position_of = λ (j : ℕ). position_at (checkpoints j) in
        let at =
          OnOk-ok (Consistent cur position_of) found (located-Consistent cur checkpoints ms h) in
        let ids = OnOk-ok (λ l. member_ids l ≡ row_ids ms) found (located-ids ms) in
        rw (← ids) (check_reset-answers sl q cfg0 cur position_of status members i at)

-- Each table of the group is planned, unchanged or failed, as often as it was given and never twice,
-- whatever the source answers and wherever a query fails.
pub detect_group-answers :
    (sl : List ℕ) (q : Queries) (checkpoints : ℕ → Option Checkpoint)
    (members : List (ControlRow × Checkpoint)) (out : Output) (i : ℕ)
    → All (HasCheckpoint checkpoints) members
    → detect_group sl q members ≡ ok out
    → count i (answered_ids out) ≡ count i (row_ids members)
unfolding detect_group
detect_group-answers sl q checkpoints [] out i h e = cc
detect_group-answers sl q checkpoints (m ∷ ms) out i h e =
    sym (answers-eq-count i out)
    ∙ OnOk-ok (λ o. answers i o ≡ count i (row_ids (m ∷ ms))) e
        (with_version-answers sl q checkpoints m.0 (m ∷ ms) i (ask_version q m.0) h)
