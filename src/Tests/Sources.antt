-- ===== src/Tests/Sources.antt =====
-- The theorems on quoting, partitions and placement at concrete inputs.
use lakefed_ingest.Prelude.{
  ℕ, some, true, List, [], ◌∷◌, ◌++◌, codes, Text, ℤ, pos, ◌≤ℤ◌, leb_ℤ, pos_part, neg_part, ◌/◌,
  ◌≡◌, refl, arith, ◌+◌, ◌-◌, lower, sort_by, text_eq, text_lt,
}
use lakefed_ingest.Strategies.{sqlserver}
use lakefed_ingest.Dialect.{quote_ident, quote_str}
use lakefed_ingest.Dialect.Quoting.{read_ident, read_str, quoted-read}
use lakefed_ingest.Partitions.{Bound, whole, get_partition_list}
use lakefed_ingest.Partitions.Covers.{
  Value, Explained, Whole, get_partition_list-Explained, get_partition_list-Whole,
}
use lakefed_ingest.Placement.{even}
use lakefed_ingest.Placement.Joined.{IsSpread, even-IsSpread}
use lakefed_ingest.Placement.Lightest.{Lightest, place}
use lakefed_ingest.Placement.Lightest.Stays.{after, place-stays}

abbrev odd_name : Text
odd_name = codes "o]'; drop"

quoted-read_example :
    (read_ident sqlserver (quote_ident sqlserver odd_name ++ codes " = 1")
      ≡ some (odd_name, codes " = 1"))
    × (read_str sqlserver (quote_str sqlserver odd_name ++ codes ")") ≡ some (odd_name, codes ")"))
quoted-read_example = quoted-read sqlserver odd_name (codes " = 1") (codes ")") refl refl

abbrev stride : ℤ → ℤ → ℕ → ℤ
stride a b n = pos ((pos_part b + neg_part a - (pos_part a + neg_part b)) / n)

abbrev bound : ℕ → Bound
bound n = record { kind = whole; number = pos n }

abbrev seven : Value
seven = some (λ b. leb_ℤ b (pos 7))

get_partition_list-Explained_example :
    Explained stride
      (bound 1)
      (bound 10)
      (pos 3)
      (get_partition_list stride (bound 1) (bound 10) (pos 3))
get_partition_list-Explained_example =
    get_partition_list-Explained stride (bound 1) (bound 10) (pos 3)

stride_keeps : (a b : ℤ) (m : ℕ) → a ≤ℤ b → pos 0 ≤ℤ stride a b m
stride_keeps a b m h = omega arith

seven-ordered : (a b : ℤ) → a ≤ℤ b → leb_ℤ b (pos 7) ≡ true → leb_ℤ a (pos 7) ≡ true
seven-ordered a b h k = ground arith

get_partition_list-Whole_example :
    Whole stride seven (get_partition_list stride (bound 1) (bound 10) (pos 3))
get_partition_list-Whole_example =
    get_partition_list-Whole stride seven (bound 1) (bound 10) (pos 3) seven-ordered stride_keeps
      (omega arith) refl tt (omega arith)

abbrev databases : List (Text × ℕ)
databases = (codes "Sales", 40) ∷ (codes "hr", 25) ∷ (codes "sales", 2) ∷ (codes "ops", 30) ∷ []

even-IsSpread_example : IsSpread databases 2 (even databases 2)
even-IsSpread_example = even-IsSpread databases 2

even_run : even databases 2 ≡ (codes "sales", 0) ∷ (codes "ops", 1) ∷ (codes "hr", 1) ∷ []
unfolding even sort_by text_eq lower
even_run = refl

abbrev groups : Lightest
groups = record {
  loads = (codes "s", (codes "g_c02", 5) ∷ (codes "g_c01", 9) ∷ []) ∷ [];
  placed = [];
}

placed_first : (place (codes "s") (codes "New") 1 groups).0 ≡ some (codes "g_c02")
unfolding place text_eq sort_by text_lt
placed_first = refl

place-stays_example :
    (place
      (codes "s")
      (codes "NEW")
      1
      (after ((codes "s", codes "other", 3) ∷ []) ((place (codes "s") (codes "New") 1 groups).1))).0
    ≡ some (codes "g_c02")
place-stays_example =
    place-stays ((codes "s", codes "other", 3) ∷ []) (codes "s") (codes "New") (codes "NEW")
      (codes "g_c02") 1 1 groups placed_first (unfold lower in refl)
