-- ===== src/Poller/Justified.antt =====
-- run_poller.Poller._reconcile: the runs that are closed, against what was read of them.
use lakefed_ingest.Prelude.{
  ap, Option-cases, ℕ, Option, none, some, Bool, true, false, ◌||◌, List, [], ◌∷◌, ◌++◌, text_eq,
  text_mem, All, All-append, tally, tally-append, ◌≡◌, refl, ◌⊎◌, inl, inr, arith, Bool-cases,
}
use lakefed_ingest.Poller.{
  Status, failed, cancelled, StateRow, Close, ended_states, not_found, not_found_after,
  cancel_close_after, is_past, should_close, is_requested, is_cancelled_result, closing_status,
  closure, OpenRun, Answer, unreadable, unknown_run, run_of, Write, records, closes, Trace,
  missing_row, row_from_run, put_write, put_close, close_run, answered, pass, reconcile,
}

-- The Databricks run is over, has long been missing, or has long been cancelled.
abbrev pub IsOver : StateRow → Option ℕ → ℕ → Type 0
IsOver row started now =
    (text_mem row.life_cycle_state ended_states ≡ true)
    ⊎ (((text_eq row.life_cycle_state not_found ≡ true)
          × (is_past started not_found_after now ≡ true))
        ⊎ (is_past row.cancel_requested_at cancel_close_after now ≡ true))

-- What the status says of the row.
abbrev pub Tells : Status → StateRow → Type 0
Tells failed row =
    (is_requested row.cancel_requested_at ≡ false) × (is_cancelled_result row.result_state ≡ false)
Tells cancelled row =
    (is_requested row.cancel_requested_at || is_cancelled_result row.result_state) ≡ true

abbrev OnClose : (Close → Type 0) → Option Close → Type 0
OnClose P none = Unit
OnClose P (some c) = P c

abbrev pub IsFair : StateRow → Option ℕ → ℕ → ℕ → Close → Type 0
IsFair row started run now c =
    (c.databricks_run ≡ run) × IsOver row started now × Tells c.status row

closing_status-Tells : (row : StateRow) → Tells (closing_status row) row
unfolding closing_status
closing_status-Tells row =
    elim (Bool-cases
      (is_requested row.cancel_requested_at || is_cancelled_result row.result_state)) [
        | inl told ↦ rw told told
        | inr not_told ↦ rw not_told (ground (arith, not_told), ground (arith, not_told))
      ]

requested_if_past :
    (asked : Option ℕ) (wait now : ℕ) → is_past asked wait now ≡ true → is_requested asked ≡ true
requested_if_past none wait now h = h
requested_if_past (some t) wait now h = refl

should_close-IsOver :
    (row : StateRow) (started : Option ℕ) (now : ℕ)
    → should_close row started now ≡ true
    → IsOver row started now
unfolding should_close
should_close-IsOver row started now h =
    elim (Bool-cases (text_mem row.life_cycle_state ended_states)) [
      | inl over ↦ inl over
      | inr going ↦ inr (inl (ground (arith, h, going), ground (arith, h, going)))
    ]

closure-IsFair :
    (row : StateRow) (started : Option ℕ) (run now : ℕ)
    → OnClose (IsFair row started run now) (closure row started run now)
unfolding closure
closure-IsFair row started run now = elim (Bool-cases (should_close row started now)) [
  | inl over ↦ rw over (refl, should_close-IsOver row started now over, closing_status-Tells row)
  | inr going ↦
      rw going (elim (Bool-cases (is_past row.cancel_requested_at cancel_close_after now)) [
        | inl long_ago ↦ rw long_ago (
          refl,
          inr (inr long_ago),
          ground (arith, requested_if_past row.cancel_requested_at cancel_close_after now long_ago),
        )
        | inr recent ↦ rw recent tt
      ])
]

abbrev pub answer_row : Answer → Option StateRow
answer_row unreadable = none
answer_row unknown_run = some missing_row
answer_row (run_of state result ended) = some (row_from_run state result ended)

abbrev pub is_close : Write → Bool
is_close (records run row) = false
is_close (closes i c) = true

abbrev pub Among : OpenRun → List OpenRun → Type 0
Among r [] = ⊥
Among r (q ∷ qs) = (q ≡ r) ⊎ Among r qs

All-Among :
    (opens seen : List OpenRun)
    → ((r : OpenRun) → Among r seen → Among r opens)
    → All (λ r. Among r opens) seen
All-Among opens [] f = tt
All-Among opens (r ∷ seen) f = (f r (inl refl), All-Among opens seen (λ q h. f q (inr h)))

module _ (known : ℕ → Option StateRow) (get_run : List ℕ → ℕ → Answer)
    (fails : List Write → Write → Bool) (now : ℕ) where
  -- What was read of a Databricks run: what the table holds, or else what the Jobs API said.
  abbrev pub Seen : ℕ → StateRow → Type 0
  Seen run row =
      (known run ≡ some row)
      ⊎ ((known run ≡ none) × ((asked : List ℕ) × (answer_row (get_run asked run) ≡ some row)))

  abbrev pub IsJustified : List OpenRun → Write → Type 0
  IsJustified opens (records run row) = (known run ≡ none) × Seen run row
  IsJustified opens (closes i c) =
      (r : OpenRun) × (row : StateRow) × (Among r opens
        × (r.run_id ≡ i)
        × Seen r.job_run row
        × IsFair row r.started_at r.job_run now c)

  pub record IsSound (opens : List OpenRun) (t : Trace) : Type 0 where
    pub justified : All (IsJustified opens) t.writes
    pub counts : t.closed ≡ tally is_close t.writes

  put_close-IsSound :
      (opens : List OpenRun) (i : ℕ) (c : Close) (t : Trace)
      → IsJustified opens (closes i c)
      → IsSound opens t
      → IsSound opens (put_close known get_run fails now (closes i c) t)
  unfolding put_close
  put_close-IsSound opens i c t j s = elim (Bool-cases (fails t.writes (closes i c))) [
    | inl raises ↦ rw raises (record { justified = s.justified; counts = s.counts })
    | inr made ↦ rw made (record {
      justified = All-append (IsJustified opens) t.writes (closes i c ∷ []) s.justified (j, tt);
      counts = omega (arith, s.counts, tally-append is_close t.writes (closes i c ∷ []));
    })
  ]

  close_run-IsSound :
      (opens : List OpenRun) (r : OpenRun) (row : StateRow) (t : Trace)
      → Among r opens
      → Seen r.job_run row
      → IsSound opens t
      → IsSound opens (close_run known get_run fails now r row t)
  unfolding close_run
  close_run-IsSound opens r row t m seen s =
      closes_if (closure row r.started_at r.job_run now)
        (closure-IsFair row r.started_at r.job_run now)
    where
      closes_if :
          (o : Option Close)
          → OnClose (IsFair row r.started_at r.job_run now) o
          → IsSound opens (elim o [
            | none ↦ t
            | some c ↦ put_close known get_run fails now (closes r.run_id c) t
          ])
      closes_if none f = s
      closes_if (some c) f = put_close-IsSound opens r.run_id c t (r, row, (m, refl, seen, f)) s

  recorded-IsSound :
      (opens : List OpenRun) (run : ℕ) (row : StateRow) (t : Trace)
      → IsJustified opens (records run row)
      → IsSound opens t
      → IsSound opens (put_write known get_run fails now (records run row) t)
  unfolding put_write
  recorded-IsSound opens run row t j s = elim (Bool-cases (fails t.writes (records run row))) [
    | inl raises ↦ rw raises (record { justified = s.justified; counts = s.counts })
    | inr made ↦ rw made (record {
      justified =
          All-append (IsJustified opens) t.writes (records run row ∷ []) s.justified (j, tt);
      counts = omega (arith, s.counts, tally-append is_close t.writes (records run row ∷ []));
    })
  ]

  answered-IsSound :
      (opens : List OpenRun) (r : OpenRun) (t : Trace) (a : Answer)
      → Among r opens
      → known r.job_run ≡ none
      → get_run t.asked r.job_run ≡ a
      → IsSound opens t
      → IsSound opens (answered known get_run fails now r t a)
  unfolding answered
  answered-IsSound opens r t unreadable m n e s = record {
    justified = s.justified;
    counts = s.counts;
  }
  answered-IsSound opens r t unknown_run m n e s =
      close_run-IsSound opens r missing_row _ m (inr (n, (t.asked, ap answer_row e)))
        (record { justified = s.justified; counts = s.counts })
  answered-IsSound opens r t (run_of state result ended) m n e s =
      let row = row_from_run state result ended in
      let seen : Seen r.job_run row = inr (n, (t.asked, ap answer_row e)) in
      let asking = record t { asked = t.asked ++ (r.job_run ∷ []) } in
      let recorded = put_write known get_run fails now (records r.job_run row) asking in
      let sound =
        recorded-IsSound opens r.job_run row asking (n, seen)
          (record { justified = s.justified; counts = s.counts }) in
      elim (Bool-cases recorded.raised) [
        | inl raises ↦ rw raises sound
        | inr made ↦ rw made (close_run-IsSound opens r row recorded m seen sound)
      ]

  pass-IsSound :
      (opens : List OpenRun) (r : OpenRun) (t : Trace)
      → Among r opens
      → IsSound opens t
      → IsSound opens (pass known get_run fails now r t)
  unfolding pass
  pass-IsSound opens r t m s = elim (Option-cases (known r.job_run)) [
    | inl unrecorded ↦
        rw (unrecorded, pass)
          (answered-IsSound opens r t (get_run t.asked r.job_run) m unrecorded refl s)
    | inr (row, e) ↦ rw (e, pass) (close_run-IsSound opens r row t m (inl e) s)
  ]

  reconcile-from :
      (opens rs : List OpenRun) (t : Trace)
      → All (λ r. Among r opens) rs
      → IsSound opens t
      → IsSound opens (reconcile known get_run fails now rs t)
  unfolding reconcile
  reconcile-from opens [] t ms s = s
  reconcile-from opens (r ∷ rs) t ms s =
      let sound = pass-IsSound opens r t ms.0 s in
      elim (Bool-cases (pass known get_run fails now r t).raised) [
        | inl raises ↦ rw raises sound
        | inr made ↦ rw made (reconcile-from opens rs (pass known get_run fails now r t) ms.1 sound)
      ]

  -- Whatever the table holds, the Jobs API answers and the writes do: each run that is closed is one of the open ones, by a
  -- row that the table holds or, where it holds none, that the API's answer gives; that row's run has ended, or is unknown to the API and
  -- began over 24 hours ago, or was cancelled by the app over 2 minutes ago; it is closed as cancelled exactly when the app asked for that
  -- or the result says so; and the count is that of the closes written.
  pub reconcile-IsSound :
      (opens : List OpenRun)
      → IsSound opens (
          reconcile known get_run fails now opens
            (record { asked = []; writes = []; closed = 0; raised = false }))
  reconcile-IsSound opens =
      reconcile-from opens opens _ (All-Among opens opens (λ r h. h))
        (record { justified = tt; counts = refl })
