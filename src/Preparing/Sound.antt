-- ===== src/Preparing/Sound.antt =====
-- preparing.py: the dicts of databases set aside and left out, under each operation.
use lakefed_ingest.Prelude.{
  ℕ, zero, suc, ◌+◌, ◌≤◌, Bool, true, false, not, ◌&&◌, ◌||◌, List, [], ◌∷◌, Text, text_eq,
  text_eq_iff, take, if◌then◌else◌, tally, filter_by, sort_by, sort_onto, insert_by, length, All,
  ◌≡◌, ◌∙◌, arith, Bool-cases, inl, inr,
}
use lakefed_ingest.Preparing.Data.{Entry, Counts, is_clash, needs_action, put, pop, has}
use lakefed_ingest.Preparing.{
  listed, put_all, sorted_out, kept_entries, by_name, leave, removed_counts,
}

-- No entry is of a database that was left out.
abbrev pub Outside : List (Text × Entry) → List (Text × Entry) → Type 0
Outside left d = All (λ e. has (e.0) left ≡ false) d

-- How many entries are no clashes.
abbrev pub others : List (Text × Entry) → ℕ
others d = tally (λ e. not (is_clash (e.1).kind)) d

pub has-put :
    (j k : Text) (e : Entry) (d : List (Text × Entry))
    → has j (put k e d) ≡ (has j d || text_eq k j)
unfolding put
has-put j k e [] = ground arith
has-put j k e ((i, f) ∷ d) = ground (arith, has-put j k e d, text_eq_iff i k)

others-put :
    (k : Text) (e : Entry) (d : List (Text × Entry))
    → others (put k e d) ≤ (if is_clash e.kind then 0 else 1) + others d
unfolding put
others-put k e [] = ground arith
others-put k e ((i, f) ∷ d) = ground (arith, others-put k e d)

others-pop : (k : Text) (d : List (Text × Entry)) → others (pop k d) ≤ others d
unfolding pop
others-pop k [] = omega arith
others-pop k ((i, f) ∷ d) = ground (arith, others-pop k d)

pub others-filter_by :
    (p : Text × Entry → Bool) (d : List (Text × Entry)) → others (filter_by p d) ≤ others d
others-filter_by p [] = omega arith
others-filter_by p (e ∷ d) = ground (arith, others-filter_by p d)

others-put_all : (more d : List (Text × Entry)) → others (put_all more d) ≤ length more + others d
unfolding put_all
others-put_all [] d = omega arith
others-put_all ((k, e) ∷ more) d = ground (arith, others-put_all more (put k e d), others-put k e d)

length-take_le : (n : ℕ) (d : List (Text × Entry)) → length (take n d) ≤ n
length-take_le zero d = omega arith
length-take_le (suc n) [] = omega arith
length-take_le (suc n) (e ∷ d) = omega (arith, length-take_le n d)

module _ (P : Text × Entry → Type 0) where
  All-put :
      (k : Text) (e : Entry) (d : List (Text × Entry)) → P (k, e) → All P d → All P (put k e d)
  unfolding put
  All-put k e [] h a = (h, tt)
  All-put k e ((i, f) ∷ d) h a = elim (Bool-cases (text_eq i k)) [
    | inl same ↦ rw same (h, a.1)
    | inr other ↦ rw other (a.0, All-put k e d h a.1)
  ]

  All-put_all : (more d : List (Text × Entry)) → All P more → All P d → All P (put_all more d)
  unfolding put_all
  All-put_all [] d h a = a
  All-put_all ((k, e) ∷ more) d h a = All-put_all more (put k e d) h.1 (All-put k e d h.0 a)

  All-take : (n : ℕ) (d : List (Text × Entry)) → All P d → All P (take n d)
  All-take zero d a = tt
  All-take (suc n) [] a = tt
  All-take (suc n) (e ∷ d) a = (a.0, All-take n d a.1)

  pub All-kept :
      (p : Text × Entry → Bool) (d : List (Text × Entry)) → All P d → All P (filter_by p d)
  All-kept p [] a = tt
  All-kept p (e ∷ d) a = elim (Bool-cases (p e)) [
    | inl its ↦ rw its (a.0, All-kept p d a.1)
    | inr other ↦ rw other (All-kept p d a.1)
  ]

  All-insert_by :
      (before : Text × Entry → Text × Entry → Bool) (e : Text × Entry) (d : List (Text × Entry))
      → P e
      → All P d
      → All P (insert_by before e d)
  unfolding insert_by
  All-insert_by before e [] h a = (h, tt)
  All-insert_by before e (f ∷ d) h a = elim (Bool-cases (before e f)) [
    | inl first ↦ rw first (h, a)
    | inr later ↦ rw later (a.0, All-insert_by before e d h a.1)
  ]

  All-sort_onto :
      (before : Text × Entry → Text × Entry → Bool) (sorted d : List (Text × Entry))
      → All P sorted
      → All P d
      → All P (sort_onto before sorted d)
  unfolding sort_onto
  All-sort_onto before sorted [] h a = h
  All-sort_onto before sorted (e ∷ d) h a =
      All-sort_onto before (insert_by before e sorted) d (All-insert_by before e sorted a.0 h) a.1

  All-sort_by :
      (before : Text × Entry → Text × Entry → Bool) (d : List (Text × Entry))
      → All P d
      → All P (sort_by before d)
  unfolding sort_by
  All-sort_by before d a = All-sort_onto before [] d tt a

All-pop :
    (left : List (Text × Entry)) (k : Text) (e : Entry) (d : List (Text × Entry))
    → Outside left d
    → Outside (put k e left) (pop k d)
unfolding pop
All-pop left k e [] a = tt
All-pop left k e ((i, f) ∷ d) a = elim (Bool-cases (text_eq i k)) [
  | inl same ↦ rw same (All-pop left k e d a.1)
  | inr other ↦ rw other (
    has-put i k e left ∙ ground (arith, a.0, other, text_eq_iff i k, text_eq_iff k i),
    All-pop left k e d a.1,
  )
]

module _ (key : Text → Text → Text) where
  sorted_out-Outside :
      (clashes : Bool) (es : List Entry) (left d : List (Text × Entry))
      → Outside left d
      → Outside left (sorted_out key clashes es left d)
  unfolding sorted_out
  sorted_out-Outside clashes [] left d a = a
  sorted_out-Outside clashes (e ∷ es) left d a =
      elim (Bool-cases (
        not (has (key e.server e.database) left)
        && (if clashes then is_clash e.kind else not (is_clash e.kind)))) [
          | inl taken ↦ rw taken (
              sorted_out-Outside clashes es left (put (key e.server e.database) e d) (
                All-put (λ f. has (f.0) left ≡ false) (key e.server e.database) e d
                  (ground (arith, taken)) a))
          | inr skipped ↦ rw skipped (sorted_out-Outside clashes es left d a)
        ]

  others-sorted_out :
      (es : List Entry) (left d : List (Text × Entry))
      → others (sorted_out key true es left d) ≤ others d
  unfolding sorted_out
  others-sorted_out [] left d = omega arith
  others-sorted_out (e ∷ es) left d =
      let k = key e.server e.database in
      ground (
        arith,
        others-sorted_out es left (put k e d),
        others-sorted_out es left d,
        others-put k e d,
      )

  pub kept_entries-Outside :
      (es : List Entry) (left : List (Text × Entry)) → Outside left (kept_entries key es left)
  unfolding kept_entries
  kept_entries-Outside es left =
      let P = λ (f : Text × Entry). has (f.0) left ≡ false in
      All-put_all P _ _
        (All-take P listed _ (All-sort_by P _ _ (sorted_out-Outside false es left [] tt)))
        (sorted_out-Outside true es left [] tt)

  pub others-kept_entries :
      (es : List Entry) (left : List (Text × Entry)) → others (kept_entries key es left) ≤ listed
  unfolding kept_entries
  others-kept_entries es left = omega (
    arith,
    others-put_all (take listed (sort_by by_name (sorted_out key false es left [])))
        (sorted_out key true es left []),
    others-sorted_out es left [],
    length-take_le listed (sort_by by_name (sorted_out key false es left [])),
  )

  pub leave-Sound :
      (es : List Entry) (aside left : List (Text × Entry)) (c : Counts) (taken : ℕ)
      → Outside left aside
      → others aside ≤ listed
      → let out = leave key es aside left c taken in
        Outside (out.1) (out.0)
        × others (out.0) ≤ listed
        × ((k : Text) → has k left ≡ true → has k (out.1) ≡ true)
  unfolding leave
  leave-Sound [] aside left c taken a small = (a, small, λ k h. h)
  leave-Sound (e ∷ es) aside left c taken a small =
      elim (Bool-cases (has (key e.server e.database) left || not (needs_action e.kind))) [
        | inl skipped ↦ rw (skipped, leave) (leave-Sound es aside left c taken a small)
        | inr out ↦
            let k = key e.server e.database in
            let rest =
              leave-Sound es (pop k aside) (put k e left) (removed_counts e.kind c) (taken + 1)
                (All-pop left k e aside a) (omega (arith, others-pop k aside, small)) in
            rw (out, leave)
              (rest.0, rest.1, λ j h. rest.2 j (has-put j k e left ∙ ground (arith, h)))
      ]
