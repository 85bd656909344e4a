-- ===== src/Schedules/Skipped/Calls.antt =====
-- schedules.SkippedRuns: sequences of calls of the cache, with an API that may raise.
use lakefed_ingest.Prelude.{
  ℕ, ◌+◌, ◌-◌, ◌≤◌, Option, none, some, List, [], ◌∷◌, ltb, leb, Result, ok, err, OnOk, ◌≡◌, refl,
  arith, Bool-cases, inl, inr,
}
use lakefed_ingest.Schedules.Skipped.{
  Run, Listed, listed_of, margin_ms, first_listed, earlier_listed, newer_listed, opened, refreshed,
  pruned, after_refresh, after_open, starts,
}
use lakefed_ingest.Schedules.Skipped.Answers.{
  World, IsTruthful, IsCurrent, AllCurrent, IsAnswer, opened-IsCurrent, refreshed-IsCurrent,
  pruned-IsCurrent, answer-IsAnswer, later-IsCurrent,
}

-- Calls (since, now) whose times do not go back, from `start` to `end`.
abbrev pub InOrder : ℕ → List (ℕ × ℕ) → ℕ → Type 0
InOrder start [] end = start ≤ end
InOrder start ((since, now) ∷ calls) end = (start ≤ now) × InOrder now calls end

module _ {E : Type 0} (runs : ℕ → ℕ → Option ℕ → Result E (List Run)) (ttl_ms keep_ms : ℕ)
    (world : World) where
  -- The cache after some calls.
  pub after : List (ℕ × ℕ) → Option Listed → Option Listed
  after [] o = o
  after ((since, now) ∷ calls) o = after calls ((starts runs ttl_ms keep_ms since now o).1)

  pruned-since :
      (since now : ℕ) (l : Listed)
      → l.since ≤ since
      → now ≤ since + keep_ms
      → (pruned runs ttl_ms keep_ms now l).since ≤ since
  unfolding pruned
  pruned-since since now l h k = ground arith

  pruned-until : (now : ℕ) (l : Listed) → (pruned runs ttl_ms keep_ms now l).until ≡ l.until
  unfolding pruned
  pruned-until now l = ground arith

  -- What a call leaves and answers.
  abbrev Good : ℕ → ℕ → Result E (List ℕ) × Option Listed → Type 0
  Good since now (r, o) =
      AllCurrent runs ttl_ms keep_ms world now o
      × (now ≤ since + keep_ms → OnOk (IsAnswer runs ttl_ms keep_ms world since now) r)

  abbrev Current : ℕ → Listed → Type 0
  Current now l = IsCurrent runs ttl_ms keep_ms world now l

  after_refresh-Good :
      (since now : ℕ) (l : Listed) (r : Result E Listed)
      → Current now l
      → l.since ≤ since
      → OnOk (λ m. Current now m × (m.since ≡ l.since) × (now ≤ m.until + ttl_ms)) r
      → Good since now (after_refresh runs ttl_ms keep_ms since now l r)
  unfolding after_refresh
  after_refresh-Good since now l (err e) c p d = (c, λ h. tt)
  after_refresh-Good since now l (ok m) c p (a, b, e) =
      let kept = pruned-IsCurrent runs ttl_ms keep_ms world now m a in
      (
        kept,
        λ h.
            answer-IsAnswer runs ttl_ms keep_ms world since now (pruned runs ttl_ms keep_ms now m)
              kept (pruned-since since now m (omega (arith, p, b)) h)
              (omega (arith, e, pruned-until now m)),
      )

  after_open-Good :
      (since now : ℕ) (o : Option Listed) (r : Result E Listed)
      → IsTruthful runs ttl_ms keep_ms world
      → AllCurrent runs ttl_ms keep_ms world now o
      → OnOk (λ l. Current now l × (l.since ≤ since)) r
      → Good since now (after_open runs ttl_ms keep_ms since now o r)
  unfolding after_open
  after_open-Good since now o (err e) t c d = (c, λ h. tt)
  after_open-Good since now o (ok l) t c (a, b) =
      after_refresh-Good since now l (refreshed runs ttl_ms keep_ms now l) a b
        (refreshed-IsCurrent runs ttl_ms keep_ms world now l t a)

  starts-Good :
      (since now : ℕ) (o : Option Listed)
      → IsTruthful runs ttl_ms keep_ms world
      → AllCurrent runs ttl_ms keep_ms world now o
      → Good since now (starts runs ttl_ms keep_ms since now o)
  unfolding starts
  starts-Good since now o t c =
      after_open-Good since now o (opened runs ttl_ms keep_ms since now o) t c
        (opened-IsCurrent runs ttl_ms keep_ms world since now o t c)

  later-AllCurrent :
      (now then_on : ℕ) (o : Option Listed)
      → now ≤ then_on
      → AllCurrent runs ttl_ms keep_ms world now o
      → AllCurrent runs ttl_ms keep_ms world then_on o
  later-AllCurrent now then_on none h c = tt
  later-AllCurrent now then_on (some l) h c =
      later-IsCurrent runs ttl_ms keep_ms world now then_on l h c

  after-AllCurrent :
      (start end : ℕ) (calls : List (ℕ × ℕ)) (o : Option Listed)
      → IsTruthful runs ttl_ms keep_ms world
      → InOrder start calls end
      → AllCurrent runs ttl_ms keep_ms world start o
      → AllCurrent runs ttl_ms keep_ms world end (after calls o)
  unfolding after
  after-AllCurrent start end [] o t h c = later-AllCurrent start end o h c
  after-AllCurrent start end ((since, now) ∷ calls) o t (h, hs) c =
      after-AllCurrent now end calls ((starts runs ttl_ms keep_ms since now o).1) t hs
        ((starts-Good since now o t (later-AllCurrent start now o h c)).0)

  -- What was raised, if anything, is what the API raised at some call.
  pub FromApi : {A : Type 0} → Result E A → Type 0
  FromApi (ok a) = Unit
  FromApi (err e) = (now since : ℕ) × (until : Option ℕ) × (runs now since until ≡ err e)

  listing-FromApi :
      (now since : ℕ) (until : Option ℕ) (r : Result E (List Run))
      → runs now since until ≡ r
      → FromApi (listed_of r)
  unfolding FromApi
  listing-FromApi now since until (err e) h = (now, since, until, h)
  listing-FromApi now since until (ok rs) h = tt

  first-FromApi :
      (since now : ℕ) (r : Result E (List (ℕ × ℕ)))
      → FromApi r
      → FromApi (first_listed runs ttl_ms keep_ms since now r)
  unfolding first_listed FromApi
  first-FromApi since now (err e) h = h
  first-FromApi since now (ok d) h = tt

  earlier-FromApi :
      (since : ℕ) (l : Listed) (r : Result E (List (ℕ × ℕ)))
      → FromApi r
      → FromApi (earlier_listed runs ttl_ms keep_ms since l r)
  unfolding earlier_listed FromApi
  earlier-FromApi since l (err e) h = h
  earlier-FromApi since l (ok d) h = tt

  newer-FromApi :
      (now : ℕ) (l : Listed) (r : Result E (List (ℕ × ℕ)))
      → FromApi r
      → FromApi (newer_listed runs ttl_ms keep_ms now l r)
  unfolding newer_listed FromApi
  newer-FromApi now l (err e) h = h
  newer-FromApi now l (ok d) h = tt

  opened-FromApi :
      (since now : ℕ) (o : Option Listed) → FromApi (opened runs ttl_ms keep_ms since now o)
  unfolding opened
  opened-FromApi since now none =
      first-FromApi since now (listed_of (runs now since none))
        (listing-FromApi now since none (runs now since none) refl)
  opened-FromApi since now (some l) = elim (Bool-cases (ltb since l.since)) [
    | inl longer ↦ rw longer (
        earlier-FromApi since l (listed_of (runs now since (some l.since)))
          (listing-FromApi now since (some l.since) (runs now since (some l.since)) refl))
    | inr covered ↦ rw covered (unfold FromApi in tt)
  ]

  refreshed-FromApi : (now : ℕ) (l : Listed) → FromApi (refreshed runs ttl_ms keep_ms now l)
  unfolding refreshed
  refreshed-FromApi now l = elim (Bool-cases (leb (l.until + ttl_ms) now)) [
    | inl old ↦ rw old (
        newer-FromApi now l (listed_of (runs now (l.until - margin_ms) none)) (
          listing-FromApi now (l.until - margin_ms) none (runs now (l.until - margin_ms) none)
            refl))
    | inr young ↦ rw young (unfold FromApi in tt)
  ]

  after_refresh-FromApi :
      (since now : ℕ) (l : Listed) (r : Result E Listed)
      → FromApi r
      → FromApi ((after_refresh runs ttl_ms keep_ms since now l r).0)
  unfolding after_refresh FromApi
  after_refresh-FromApi since now l (err e) h = h
  after_refresh-FromApi since now l (ok m) h = tt

  after_open-FromApi :
      (since now : ℕ) (o : Option Listed) (r : Result E Listed)
      → FromApi r
      → FromApi ((after_open runs ttl_ms keep_ms since now o r).0)
  unfolding after_open
  after_open-FromApi since now o (err e) h = unfold FromApi in h
  after_open-FromApi since now o (ok l) h =
      after_refresh-FromApi since now l (refreshed runs ttl_ms keep_ms now l)
        (refreshed-FromApi now l)

  starts-FromApi :
      (since now : ℕ) (o : Option Listed) → FromApi ((starts runs ttl_ms keep_ms since now o).0)
  unfolding starts
  starts-FromApi since now o =
      after_open-FromApi since now o (opened runs ttl_ms keep_ms since now o)
        (opened-FromApi since now o)

  -- With an API that tells the truth about the job's skipped runs, shown within the margin of their starts: after any
  -- calls in the order of time, also of longer and of shorter windows and where the API raised, a call over a window that is no
  -- longer than what is kept answers as a full listing would, with each run once, all those shown `ttl_ms` before
  -- now, and only those shown by now; or it raises what the API raised.
  pub starts-IsAnswer :
      (calls : List (ℕ × ℕ)) (since now : ℕ)
      → IsTruthful runs ttl_ms keep_ms world
      → InOrder 0 calls now
      → now ≤ since + keep_ms
      → OnOk
          (IsAnswer runs ttl_ms keep_ms world since now)
          ((starts runs ttl_ms keep_ms since now (after calls none)).0)
        × FromApi ((starts runs ttl_ms keep_ms since now (after calls none)).0)
  starts-IsAnswer calls since now t order kept = (
    (starts-Good since now (after calls none) t (after-AllCurrent 0 now calls none t order tt)).1
        kept,
    starts-FromApi since now (after calls none),
  )
