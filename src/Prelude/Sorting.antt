-- ===== src/Prelude/Sorting.antt =====
-- Python's stable `sorted`, by a strict order, and how many items of a list pass a test.
use Prim.Native.Nat.{ℕ, ◌+◌}
use mathlib.Core.Path.{◌≡◌, refl}
use mathlib.Core.Bool.{Bool, true, false, ◌&&◌, ◌||◌}
use mathlib.Core.List.{List, [], ◌∷◌, ◌++◌}
use native.Mathlib.Omega.{arith}
use lakefed_ingest.Prelude.Texts.{Text, text_eq, text_eq_iff, text_mem}
use lakefed_ingest.Prelude.Tests.{if◌then◌else◌, ltb, ◌==◌}

module _ {ℓ} {A : Type ℓ} where
  unfoldable pub insert_by : (A → A → Bool) → A → List A → List A
  insert_by before x [] = x ∷ []
  insert_by before x (y ∷ ys) =
      let later = insert_by before x ys in if before x y then x ∷ y ∷ ys else y ∷ later

  unfoldable pub sort_onto : (A → A → Bool) → List A → List A → List A
  unfolding insert_by
  sort_onto before sorted [] = sorted
  sort_onto before sorted (x ∷ xs) = sort_onto before (insert_by before x sorted) xs

  unfoldable pub sort_by : (A → A → Bool) → List A → List A
  unfolding sort_onto
  sort_by before xs = sort_onto before [] xs

  -- How many items pass a test: lists that agree on this for every test hold the same items.
  abbrev pub tally : (A → Bool) → List A → ℕ
  tally p [] = 0
  tally p (x ∷ xs) = (if p x then 1 else 0) + tally p xs

  pub tally-append : (p : A → Bool) (xs ys : List A) → tally p (xs ++ ys) ≡ tally p xs + tally p ys
  tally-append p [] ys = omega arith
  tally-append p (x ∷ xs) ys = omega (arith, tally-append p xs ys)

  pub tally-insert_by :
      (p : A → Bool) (before : A → A → Bool) (x : A) (ys : List A)
      → tally p (insert_by before x ys) ≡ (if p x then 1 else 0) + tally p ys
  unfolding insert_by
  tally-insert_by p before x [] = omega arith
  tally-insert_by p before x (y ∷ ys) = ground (arith, tally-insert_by p before x ys)

  pub tally-sort_onto :
      (p : A → Bool) (before : A → A → Bool) (sorted xs : List A)
      → tally p (sort_onto before sorted xs) ≡ tally p sorted + tally p xs
  unfolding sort_onto
  tally-sort_onto p before sorted [] = omega arith
  tally-sort_onto p before sorted (x ∷ xs) = omega (
    arith,
    tally-sort_onto p before (insert_by before x sorted) xs,
    tally-insert_by p before x sorted,
  )

  pub tally-sort_by :
      (p : A → Bool) (before : A → A → Bool) (xs : List A)
      → tally p (sort_by before xs) ≡ tally p xs
  unfolding sort_by
  tally-sort_by p before xs = omega (arith, tally-sort_onto p before [] xs)

-- `s < t` on texts.
unfoldable pub text_lt : List ℕ → List ℕ → Bool
text_lt [] [] = false
text_lt [] (y ∷ ys) = true
text_lt (x ∷ xs) [] = false
text_lt (x ∷ xs) (y ∷ ys) = ltb x y || (x == y && text_lt xs ys)

-- One more name in a sorted set of names.
unfoldable pub add_text : Text → List Text → List Text
unfolding text_lt
add_text c [] = c ∷ []
add_text c (d ∷ ds) =
    let later = add_text c ds in
    if text_eq c d then d ∷ ds else (if text_lt c d then c ∷ d ∷ ds else d ∷ later)

pub text_mem-add_text :
    (s t : Text) (ts : List Text) → text_mem s (add_text t ts) ≡ (text_eq t s || text_mem s ts)
unfolding add_text text_mem
text_mem-add_text s t [] = refl
text_mem-add_text s t (u ∷ ts) =
    ground (arith, text_mem-add_text s t ts, text_eq_iff t u, text_eq_iff t s, text_eq_iff u s)
