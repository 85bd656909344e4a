-- ===== src/Schedules/Skipped/Covers.antt =====
-- schedules.SkippedRuns: which runs the dicts of the cache have, and how often.
use lakefed_ingest.Prelude.{
  ℕ, ◌+◌, ◌≤◌, Bool, true, false, not, ◌&&◌, ◌||◌, List, [], ◌∷◌, if◌then◌else◌, ◌==◌, filter_by,
  any, tally, All, ◌≡◌, refl, arith, Bool-cases, inl, inr,
}
use lakefed_ingest.Schedules.Skipped.{add_run, update}

abbrev pub is_run : ℕ → ℕ × ℕ → Bool
is_run i r = r.0 == i

any-add_run :
    (i j t : ℕ) (d : List (ℕ × ℕ)) → any (is_run i) (add_run j t d) ≡ (any (is_run i) d || j == i)
unfolding add_run
any-add_run i j t [] = ground arith
any-add_run i j t ((k, u) ∷ d) = ground (arith, any-add_run i j t d)

tally-add_run :
    (i j t : ℕ) (d : List (ℕ × ℕ))
    → tally (is_run i) (add_run j t d)
      ≡ (if j == i && not (any (is_run i) d) then 1 else 0) + tally (is_run i) d
unfolding add_run
tally-add_run i j t [] = ground arith
tally-add_run i j t ((k, u) ∷ d) = ground (arith, tally-add_run i j t d)

any-tally : (i : ℕ) (d : List (ℕ × ℕ)) → any (is_run i) d ≡ false → tally (is_run i) d ≡ 0
any-tally i [] h = refl
any-tally i (r ∷ d) h = ground (arith, any-tally i d)

All-add_run :
    (P : ℕ × ℕ → Type 0) (j t : ℕ) (d : List (ℕ × ℕ)) → P (j, t) → All P d → All P (add_run j t d)
unfolding add_run
All-add_run P j t [] h k = (h, tt)
All-add_run P j t ((i, u) ∷ d) h k = elim (Bool-cases (i == j)) [
  | inl same ↦ rw same (h, k.1)
  | inr other ↦ rw other (k.0, All-add_run P j t d h k.1)
]

pub any-update :
    (i : ℕ) (d runs : List (ℕ × ℕ))
    → any (is_run i) (update d runs) ≡ (any (is_run i) d || any (is_run i) runs)
unfolding update
any-update i d [] = ground arith
any-update i d ((j, t) ∷ runs) =
    ground (arith, any-update i (add_run j t d) runs, any-add_run i j t d)

pub tally-update :
    (i : ℕ) (d runs : List (ℕ × ℕ)) → tally (is_run i) d ≤ 1 → tally (is_run i) (update d runs) ≤ 1
unfolding update
tally-update i d [] h = h
tally-update i d ((j, t) ∷ runs) h =
    tally-update i (add_run j t d) runs (ground (arith, tally-add_run i j t d, any-tally i d, h))

pub All-update :
    (P : ℕ × ℕ → Type 0) (d runs : List (ℕ × ℕ)) → All P d → All P runs → All P (update d runs)
unfolding update
All-update P d [] h k = h
All-update P d ((j, t) ∷ runs) h k =
    All-update P (add_run j t d) runs (All-add_run P j t d k.0 h) k.1

pub tally-filter_by :
    (i : ℕ) (p : ℕ × ℕ → Bool) (d : List (ℕ × ℕ))
    → tally (is_run i) (filter_by p d) ≤ tally (is_run i) d
tally-filter_by i p [] = omega arith
tally-filter_by i p (r ∷ d) = ground (arith, tally-filter_by i p d)

pub All-filter_by :
    (P : ℕ × ℕ → Type 0) (p : ℕ × ℕ → Bool) (d : List (ℕ × ℕ))
    → All P d
    → All (λ r. P r × (p r ≡ true)) (filter_by p d)
All-filter_by P p [] h = tt
All-filter_by P p (r ∷ d) h = elim (Bool-cases (p r)) [
  | inl its ↦ rw its ((h.0, its), All-filter_by P p d h.1)
  | inr other ↦ rw other (All-filter_by P p d h.1)
]
