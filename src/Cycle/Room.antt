-- ===== src/Cycle/Room.antt =====
-- launcher.active_collections and the admission of requests, with the room for runs.
use lakefed_ingest.Prelude.{
  ℕ, suc, ◌+◌, ◌≤◌, Option, none, some, Bool, true, false, ◌||◌, List, [], ◌∷◌, ◌++◌, map, Text,
  text_eq, text_eq_refl, is_truthy, arith, ◌≡◌, refl, ap, ◌≢◌, All, le→leb, ◌∙◌,
}
use lakefed_ingest.Cycle.Launch.{
  Work, Request, Covered, find_covered, cover, cover_whole, cover_all, Active, cover_run,
  active_collections, Outcome, decide, admit,
}

-- How many of the requests are started.
pub pending : List (Request × Option Outcome) → ℕ
pending [] = 0
pending ((r, none) ∷ rest) = suc (pending rest)
pending ((r, some o) ∷ rest) = pending rest

-- A started request's collection has no run going.
pub IsFree : Covered → Request × Option Outcome → Type 0
IsFree already (r, d) = d ≡ none → find_covered r.collection already ≡ none

decide-IsFree :
    (already : Covered) (room : Option ℕ) (n : ℕ) (r : Request)
    → IsFree already (r, decide already room n r)
unfolding decide IsFree
decide-IsFree already room n r h = ground (arith, h)

admit-IsFree :
    (already : Covered) (room : Option ℕ) (n : ℕ) (rs : List Request)
    → All (IsFree already) (admit already room n rs)
unfolding admit
admit-IsFree already room n [] = tt
admit-IsFree already room n (r ∷ rs) = (
  decide-IsFree already room n r,
  admit-IsFree already room (elim (decide already room n r) [ none ↦ suc n | some o ↦ n ]) rs,
)

decide-room :
    (already : Covered) (room n : ℕ) (r : Request)
    → decide already (some room) n r ≡ none
    → suc n ≤ room
unfolding decide
decide-room already room n r h = ground (arith, h, le→leb room n)

admit-room :
    (already : Covered) (room n : ℕ) (rs : List Request)
    → n ≤ room
    → n + pending (admit already (some room) n rs) ≤ room
unfolding admit pending
admit-room already room n [] h = omega arith
admit-room already room n (r ∷ rs) h = ground (
  arith,
  decide-room already room n r,
  admit-room already room n rs h,
  admit-room already room (suc n) rs,
)

requests-of :
    (already : Covered) (room : Option ℕ) (n : ℕ) (rs : List Request)
    → map (λ e. e.0) (admit already room n rs) ≡ rs
unfolding admit
requests-of already room n [] = refl
requests-of already room n (r ∷ rs) =
    ap (λ later. r ∷ later)
      (requests-of already room (elim (decide already room n r) [ none ↦ suc n | some o ↦ n ]) rs)

-- What the first loop of `launch` promises.
pub record IsAdmission (already : Covered) (room : ℕ) (requests : List Request)
    (decided : List (Request × Option Outcome)) : Type 0 where
  pub every : map (λ e. e.0) decided ≡ requests
  pub free : All (IsFree already) decided
  pub roomy : pending decided ≤ room

-- Each request is decided on, in its order; one that is started has no run going on its collection; and no more are
-- started than there is room for.
pub admit-IsAdmission :
    (already : Covered) (room : ℕ) (requests : List Request)
    → IsAdmission already room requests (admit already (some room) 0 requests)
admit-IsAdmission already room requests = record {
  every = requests-of already (some room) 0 requests;
  free = admit-IsFree already (some room) 0 requests;
  roomy = omega (arith, admit-room already room 0 requests (omega arith));
}

-- A collection is among the covered ones.
is_covered : Text → Covered → Bool
is_covered c [] = false
is_covered c ((d, k) ∷ rest) = text_eq d c || is_covered c rest

is_covered-find :
    (c : Text) (covered : Covered) → is_covered c covered ≡ true → find_covered c covered ≡ none → ⊥
unfolding is_covered find_covered
is_covered-find c [] h k = ground arith
is_covered-find c ((d, k) ∷ rest) h e = ground (arith, h, e, is_covered-find c rest)

cover-keeps :
    (c d : Text) (ws : List Work) (covered : Covered)
    → is_covered c covered ≡ true
    → is_covered c (cover d ws covered) ≡ true
unfolding is_covered cover
cover-keeps c d ws [] h = ground (arith, h)
cover-keeps c d ws ((e, k) ∷ rest) h = ground (arith, h, cover-keeps c d ws rest)

cover-covers :
    (c : Text) (ws : List Work) (covered : Covered) → is_covered c (cover c ws covered) ≡ true
unfolding is_covered cover
cover-covers c ws [] = ground (arith, text_eq_refl c)
cover-covers c ws ((e, k) ∷ rest) = ground (arith, cover-covers c ws rest)

cover_whole-keeps :
    (c d : Text) (covered : Covered)
    → is_covered c covered ≡ true
    → is_covered c (cover_whole d covered) ≡ true
unfolding is_covered cover_whole
cover_whole-keeps c d [] h = ground (arith, h)
cover_whole-keeps c d ((e, k) ∷ rest) h = ground (arith, h, cover_whole-keeps c d rest)

cover_whole-covers : (c : Text) (covered : Covered) → is_covered c (cover_whole c covered) ≡ true
unfolding is_covered cover_whole
cover_whole-covers c [] = ground (arith, text_eq_refl c)
cover_whole-covers c ((e, k) ∷ rest) = ground (arith, cover_whole-covers c rest)

cover_all-keeps :
    (c : Text) (ws : List (Text × Work)) (covered : Covered)
    → is_covered c covered ≡ true
    → is_covered c (cover_all ws covered) ≡ true
unfolding cover_all
cover_all-keeps c [] covered h = h
cover_all-keeps c ((d, w) ∷ rest) covered h =
    cover_all-keeps c rest (cover d (w ∷ []) covered) (cover-keeps c d (w ∷ []) covered h)

module _ (work_of : Text → Text → List Work) (work_all_of : Text → List (Text × Work)) where
  cover_run-keeps :
      (c : Text) (run : Active) (covered : Covered)
      → is_covered c covered ≡ true
      → is_covered c (cover_run work_of work_all_of run covered) ≡ true
  unfolding cover_run
  cover_run-keeps c run covered h = ground (
    arith,
    h,
    cover_all-keeps c (work_all_of run.work) covered h,
    cover-keeps c run.collection (work_of run.work run.collection) covered h,
    cover_whole-keeps c run.collection covered h,
  )

  cover_run-covers :
      (run : Active) (covered : Covered)
      → is_truthy (some run.collection) ≡ true
      → is_covered run.collection (cover_run work_of work_all_of run covered) ≡ true
  unfolding cover_run
  cover_run-covers run covered h = ground (
    arith,
    h,
    cover-covers run.collection (work_of run.work run.collection) covered,
    cover_whole-covers run.collection covered,
  )

  active-keeps :
      (c : Text) (runs : List Active) (covered : Covered)
      → is_covered c covered ≡ true
      → is_covered c (active_collections work_of work_all_of runs covered) ≡ true
  unfolding active_collections
  active-keeps c [] covered h = h
  active-keeps c (run ∷ runs) covered h =
      active-keeps c runs (cover_run work_of work_all_of run covered)
        (cover_run-keeps c run covered h)

  active-covers :
      (before after : List Active) (run : Active) (covered : Covered)
      → is_truthy (some run.collection) ≡ true
      → is_covered run.collection
          (active_collections work_of work_all_of (before ++ run ∷ after) covered)
        ≡ true
  unfolding active_collections
  active-covers [] after run covered h =
      active-keeps run.collection after (cover_run work_of work_all_of run covered)
        (cover_run-covers run covered h)
  active-covers (r ∷ before) after run covered h =
      active-covers before after run (cover_run work_of work_all_of r covered) h

  -- Wherever a run that is going stands among the active ones, and whatever work lists there are: a request for that
  -- run's collection is not started, with or without a limit and however many requests were started before it.
  pub active_collections-decide :
      (before after : List Active) (run : Active)
      → is_truthy (some run.collection) ≡ true
      → (room : Option ℕ) (n : ℕ) (request : Request) → request.collection ≡ run.collection
      → decide (active_collections work_of work_all_of (before ++ run ∷ after) []) room n request
        ≢ none
  unfolding IsFree
  active_collections-decide before after run named room n request same h =
      let already = active_collections work_of work_all_of (before ++ run ∷ after) [] in
      let covered = active-covers before after run [] named in
      is_covered-find request.collection already (ap (λ c. is_covered c already) same ∙ covered)
        (decide-IsFree already room n request h)
