-- ===== src/Schedules/Skipped/Answers.antt =====
-- schedules.SkippedRuns: one call of the cache, against a listing of all runs.
use lakefed_ingest.Prelude.{
  ℕ, ◌+◌, ◌-◌, ◌≤◌, ◌<◌, Option, none, some, Bool, true, ◌&&◌, List, [], ◌∷◌, map, ◌==◌, ltb, leb,
  filter_by, sort_by, any, tally, All, All-map, Result, ok, err, ◌≡◌, ◌∙◌, refl, arith, Bool-cases,
  inl, inr, ap, OnOk, OnOk-map, ==_iff, ◌⊎◌, leb→le,
}
use lakefed_ingest.Schedules.Skipped.{
  Run, shown, margin_ms, Listed, update, list_of, listed_of, listing, first_listed, earlier_listed,
  opened, newer_listed, refreshed, pruned, answer,
}
use lakefed_ingest.Schedules.Skipped.Covers.{
  is_run, any-update, tally-update, All-update, tally-filter_by, All-filter_by,
}

-- The job's skipped runs: the start of each, and the time from which the API shows it as skipped.
abbrev pub World : Type 0
World = ℕ → Option (ℕ × ℕ)

abbrev pub Before : ℕ → Option ℕ → Type 0
Before start none = Unit
Before start (some until) = start < until

abbrev shown_as : ℕ → Run → Bool
shown_as i r = r.run_id == i && shown r

abbrev entry : Run → ℕ × ℕ
entry r = (r.run_id, r.start_time)

any-shown :
    (i : ℕ) (rs : List Run) → any (is_run i) (map entry (filter_by shown rs)) ≡ any (shown_as i) rs
any-shown i [] = refl
any-shown i (r ∷ rs) = ground (arith, any-shown i rs)

module _ {E : Type 0} (runs : ℕ → ℕ → Option ℕ → Result E (List Run)) (ttl_ms keep_ms : ℕ)
    (world : World) where
  -- A run is the world's, and was shown by the time `now`.
  pub Known : ℕ → ℕ × ℕ → Type 0
  Known now r = (seen : ℕ) × (world (r.0) ≡ some (r.1, seen)) × (seen ≤ now)

  -- What the code relies on of the Jobs API: an answer at the time `now` has only skipped runs of the job that are shown by
  -- then, and all of those that started in the window; and a run is shown as skipped within `MARGIN_MS` of its start.
  pub record IsTruthful : Type 0 where
    pub only :
        (now since : ℕ) (until : Option ℕ) (rs : List Run)
        → runs now since until ≡ ok rs
        → All
            (λ r.
              shown r ≡ true
              → (seen : ℕ) × (world r.run_id ≡ some (r.start_time, seen)) × (seen ≤ now))
            rs
    pub every :
        (now since : ℕ) (until : Option ℕ) (rs : List Run) (i start seen : ℕ)
        → runs now since until ≡ ok rs
        → world i ≡ some (start, seen)
        → seen ≤ now
        → since ≤ start
        → Before start until
        → any (shown_as i) rs ≡ true
    pub prompt : (i start seen : ℕ) → world i ≡ some (start, seen) → seen ≤ start + margin_ms

  -- A dict has the runs that are known by `now`, and all that a test asks for.
  pub record IsDict (now : ℕ) (Asked : ℕ → ℕ → Type 0) (d : List (ℕ × ℕ)) : Type 0 where
    known : All (Known now) d
    once : (i : ℕ) → tally (is_run i) d ≤ 1
    whole :
        (i start seen : ℕ)
        → world i ≡ some (start, seen)
        → Asked start seen
        → any (is_run i) d ≡ true

  filter_by-Known :
      (now : ℕ) (rs : List Run)
      → All
          (λ r.
            shown r ≡ true
            → (seen : ℕ) × (world r.run_id ≡ some (r.start_time, seen)) × (seen ≤ now))
          rs
      → All (Known now) (map entry (filter_by shown rs))
  unfolding Known
  filter_by-Known now [] h = tt
  filter_by-Known now (r ∷ rs) h = elim (Bool-cases (shown r)) [
    | inl its ↦ rw its (h.0 its, filter_by-Known now rs h.1)
    | inr other ↦ rw other (filter_by-Known now rs h.1)
  ]

  list_of-IsDict :
      (now since : ℕ) (until : Option ℕ) (rs : List Run)
      → IsTruthful
      → runs now since until ≡ ok rs
      → IsDict now (λ start seen. (seen ≤ now) × (since ≤ start) × Before start until) (list_of rs)
  unfolding list_of
  list_of-IsDict now since until rs t e =
      let found = map entry (filter_by shown rs) in
      record {
        known =
            All-update (Known now) [] found tt
              (filter_by-Known now rs (t.only now since until rs e));
        once = λ i. tally-update i [] found (omega arith);
        whole = λ i start seen w (a, b, c).
            any-update i [] found
            ∙ any-shown i rs
            ∙ t.every now since until rs i start seen e w a b c;
      }

  abbrev pub Window : ℕ → ℕ → Option ℕ → ℕ → ℕ → Type 0
  Window now since until start seen = (seen ≤ now) × (since ≤ start) × Before start until

  listed_of-IsDict :
      (now since : ℕ) (until : Option ℕ) (r : Result E (List Run))
      → IsTruthful
      → runs now since until ≡ r
      → OnOk (IsDict now (Window now since until)) (listed_of r)
  listed_of-IsDict now since until (err e) t h = tt
  listed_of-IsDict now since until (ok rs) t h = list_of-IsDict now since until rs t h

  listing-IsDict :
      (now since : ℕ) (until : Option ℕ)
      → IsTruthful
      → OnOk (IsDict now (Window now since until)) (listing runs ttl_ms keep_ms now since until)
  listing-IsDict now since until t = listed_of-IsDict now since until (runs now since until) t refl

  update-IsDict :
      (now : ℕ) (Old New Asked : ℕ → ℕ → Type 0) (d found : List (ℕ × ℕ))
      → IsDict now Old d
      → IsDict now New found
      → ((start seen : ℕ)
          → seen ≤ start + margin_ms
          → Asked start seen
          → Old start seen ⊎ New start seen)
      → IsTruthful
      → IsDict now Asked (update d found)
  update-IsDict now Old New Asked d found o n split t = record {
    known = All-update (Known now) d found o.known n.known;
    once = λ i. tally-update i d found (o.once i);
    whole = λ i start seen w asked.
        any-update i d found ∙ elim (split start seen (t.prompt i start seen w) asked) [
          | inl old ↦ ground (arith, o.whole i start seen w old)
          | inr new ↦ ground (arith, n.whole i start seen w new)
        ];
  }

  -- The cache at the time `now`: all known runs since its start that were shown by its end.
  pub record IsCurrent (now : ℕ) (l : Listed) : Type 0 where
    dict : IsDict now (λ start seen. (l.since ≤ start) × (seen ≤ l.until)) l.skipped
    ended : l.until ≤ now

  -- Of a cache that may not be there yet.
  abbrev pub AllCurrent : ℕ → Option Listed → Type 0
  AllCurrent now none = Unit
  AllCurrent now (some l) = IsCurrent now l

  later-Known : (now then_on : ℕ) → now ≤ then_on → (r : ℕ × ℕ) → Known now r → Known then_on r
  unfolding Known
  later-Known now then_on h r (seen, w, p) = (seen, w, omega (arith, h, p))

  pub later-IsCurrent :
      (now then_on : ℕ) (l : Listed) → now ≤ then_on → IsCurrent now l → IsCurrent then_on l
  later-IsCurrent now then_on l h c = record {
    dict = record {
      known = All-map l.skipped (later-Known now then_on h) c.dict.known;
      once = c.dict.once;
      whole = c.dict.whole;
    };
    ended = omega (arith, h, c.ended);
  }

  first_listed-IsCurrent :
      (since now : ℕ) (r : Result E (List (ℕ × ℕ)))
      → OnOk (IsDict now (Window now since none)) r
      → OnOk
          (λ l. IsCurrent now l × (l.since ≤ since))
          (first_listed runs ttl_ms keep_ms since now r)
  unfolding first_listed
  first_listed-IsCurrent since now (err e) d = tt
  first_listed-IsCurrent since now (ok found) d = (
    record {
      dict = record {
        known = d.known;
        once = d.once;
        whole = λ i start seen w (a, b). d.whole i start seen w (b, a, tt);
      };
      ended = omega arith;
    },
    omega arith,
  )

  earlier_listed-IsCurrent :
      (since now : ℕ) (l : Listed) (r : Result E (List (ℕ × ℕ)))
      → IsTruthful
      → IsCurrent now l
      → OnOk (IsDict now (Window now since (some l.since))) r
      → OnOk
          (λ m. IsCurrent now m × (m.since ≤ since))
          (earlier_listed runs ttl_ms keep_ms since l r)
  unfolding earlier_listed
  earlier_listed-IsCurrent since now l (err e) t c d = tt
  earlier_listed-IsCurrent since now l (ok found) t c d = (
    record {
      dict =
          update-IsDict now _ _ _ l.skipped found c.dict d
            (λ start seen p (a, b). elim (Bool-cases (leb l.since start)) [
              | inl covered ↦ inl (leb→le l.since start covered, b)
              | inr before ↦ inr (omega (arith, b, c.ended), a, ground (arith, before))
            ])
            t;
      ended = c.ended;
    },
    omega arith,
  )

  pub opened-IsCurrent :
      (since now : ℕ) (o : Option Listed)
      → IsTruthful
      → AllCurrent now o
      → OnOk (λ l. IsCurrent now l × (l.since ≤ since)) (opened runs ttl_ms keep_ms since now o)
  unfolding opened
  opened-IsCurrent since now none t c =
      first_listed-IsCurrent since now (listing runs ttl_ms keep_ms now since none)
        (listing-IsDict now since none t)
  opened-IsCurrent since now (some l) t c = elim (Bool-cases (ltb since l.since)) [
    | inl longer ↦ rw longer (
        earlier_listed-IsCurrent since now l (listing runs ttl_ms keep_ms now since (some l.since))
          t c (listing-IsDict now since (some l.since) t))
    | inr covered ↦ rw covered (c, ground (arith, covered))
  ]

  newer_listed-IsCurrent :
      (now : ℕ) (l : Listed) (r : Result E (List (ℕ × ℕ)))
      → IsTruthful
      → IsCurrent now l
      → OnOk (IsDict now (Window now (l.until - margin_ms) none)) r
      → OnOk
          (λ m. IsCurrent now m × (m.since ≡ l.since) × (m.until ≡ now))
          (newer_listed runs ttl_ms keep_ms now l r)
  unfolding newer_listed
  newer_listed-IsCurrent now l (err e) t c d = tt
  newer_listed-IsCurrent now l (ok found) t c d = (
    record {
      dict =
          update-IsDict now _ _ _ l.skipped found c.dict d
            (λ start seen p (a, b). elim (Bool-cases (leb seen l.until)) [
              | inl known ↦ inl (a, leb→le seen l.until known)
              | inr new ↦ inr (b, ground (arith, new, p), tt)
            ])
            t;
      ended = omega arith;
    },
    refl,
    refl,
  )

  -- A refresh ends at the time `now`, or its end is younger than the interval.
  pub refreshed-IsCurrent :
      (now : ℕ) (l : Listed)
      → IsTruthful
      → IsCurrent now l
      → OnOk
          (λ m. IsCurrent now m × (m.since ≡ l.since) × (now ≤ m.until + ttl_ms))
          (refreshed runs ttl_ms keep_ms now l)
  unfolding refreshed
  refreshed-IsCurrent now l t c = elim (Bool-cases (leb (l.until + ttl_ms) now)) [
    | inl old ↦ rw old (
        OnOk-map (λ m. IsCurrent now m × (m.since ≡ l.since) × (m.until ≡ now)) _
          (λ m (a, b, e). (a, b, omega (arith, e)))
          (newer_listed runs ttl_ms keep_ms now l
            (listing runs ttl_ms keep_ms now (l.until - margin_ms) none))
          (newer_listed-IsCurrent now l (listing runs ttl_ms keep_ms now (l.until - margin_ms) none)
            t c (listing-IsDict now (l.until - margin_ms) none t)))
    | inr young ↦ rw young (c, refl, ground (arith, young))
  ]

  any-filter_by :
      (i start floor : ℕ) (now seen : ℕ) (d : List (ℕ × ℕ))
      → All (Known now) d
      → world i ≡ some (start, seen)
      → floor ≤ start
      → any (is_run i) d ≡ true
      → any (is_run i) (filter_by (λ r. leb floor (r.1)) d) ≡ true
  unfolding Known
  any-filter_by i start floor now seen [] k w h e = e
  any-filter_by i start floor now seen ((j, u) ∷ d) ((s, v, p), ks) w h e =
      elim (Bool-cases (j == i)) [
        | inl same ↦
            let its : u ≡ start = ground (arith, same, v, w, ap world ((==_iff j i).0 same)) in
            ground (arith, same, its)
        | inr other ↦ ground (arith, other, e, any-filter_by i start floor now seen d ks w h)
      ]

  pub pruned-IsCurrent :
      (now : ℕ) (l : Listed) → IsCurrent now l → IsCurrent now (pruned runs ttl_ms keep_ms now l)
  unfolding pruned
  pruned-IsCurrent now l c = elim (Bool-cases (ltb l.since (now - keep_ms))) [
    | inr whole ↦ rw whole c
    | inl long ↦ rw long (record {
      dict = record {
        known =
            All-map _ (λ r (a, b). a)
              (All-filter_by (Known now) (λ r. leb (now - keep_ms) (r.1)) l.skipped c.dict.known);
        once = λ i.
            omega
              (arith, c.dict.once i, tally-filter_by i (λ r. leb (now - keep_ms) (r.1)) l.skipped);
        whole = λ i start seen w (a, b).
            any-filter_by i start (now - keep_ms) now seen l.skipped c.dict.known w a
              (c.dict.whole i start seen w (ground (arith, long, a), b));
      };
      ended = c.ended;
    })
  ]

  -- What an answer at the time `now` promises: it is the starts, in order, of runs of the world that started from
  -- `since` on and were shown by `now`, each at most once, with every one that was shown `ttl_ms` earlier.
  pub record IsAnswer (since now : ℕ) (out : List ℕ) : Type 0 where
    pub answered : List (ℕ × ℕ)
    pub sorted : out ≡ sort_by (λ t u. ltb t u) (map (λ r. r.1) answered)
    pub once : (i : ℕ) → tally (is_run i) answered ≤ 1
    pub true_runs :
        All
          (λ r. ((seen : ℕ) × (world (r.0) ≡ some (r.1, seen)) × (seen ≤ now)) × (since ≤ r.1))
          answered
    pub whole :
        (i start seen : ℕ)
        → world i ≡ some (start, seen)
        → since ≤ start
        → seen + ttl_ms ≤ now
        → any (is_run i) answered ≡ true

  pub answer-IsAnswer :
      (since now : ℕ) (l : Listed)
      → IsCurrent now l
      → l.since ≤ since
      → now ≤ l.until + ttl_ms
      → IsAnswer since now (answer runs ttl_ms keep_ms since l)
  unfolding answer Known
  answer-IsAnswer since now l c p q = record {
    answered = filter_by (λ r. leb since (r.1)) l.skipped;
    sorted = refl;
    once = λ i. omega (arith, c.dict.once i, tally-filter_by i (λ r. leb since (r.1)) l.skipped);
    true_runs =
        All-map _ (λ r (a, b). (a, leb→le since (r.1) b))
          (All-filter_by (Known now) (λ r. leb since (r.1)) l.skipped c.dict.known);
    whole = λ i start seen w a b.
        any-filter_by i start since now seen l.skipped c.dict.known w a
          (c.dict.whole i start seen w (omega (arith, a, p), omega (arith, b, q)));
  }
