-- ===== src/Partitions/Covers.antt =====
-- partitions.get_partition_list: the rows that the clauses of the partitions select.
use lakefed_ingest.Prelude.{
  ℕ, zero, suc, ◌+◌, ◌≤◌, Option, none, some, Bool, true, false, not, ◌&&◌, List, if◌then◌else◌,
  length, tally, Result, ok, err, ◌≡◌, ◌≢◌, refl, arith, subst, ◌⊎◌, ◌>>=◌, ℤ, pos, pos_part, ◌+ℤ◌,
  ◌≤ℤ◌, le-+ℤ, inl, inr, Bool-cases, ltb_ℤ,
}
use lakefed_ingest.Partitions.{
  Kind, whole, decimal_number, float, datetime, date, boolean, other, types_differ, no_partitions,
  unsupported_type, checked_list, Kind-discrete, Bound, Condition, everything, below_or_null,
  at_least, between, Partition, where_of, partitions_from, partition_list, get_partition_list,
  get_internal_bound_value, internal, Refused,
}

-- A row's value in the partition column: NULL, or what `>=` answers of it for each bound.
abbrev pub Value : Type 0
Value = Option (ℤ → Bool)

-- A value that is at least a bound is at least every lower one.
abbrev pub IsOrdered : Value → Type 0
IsOrdered none = Unit
IsOrdered (some reaches) = (a b : ℤ) → a ≤ℤ b → reaches b ≡ true → reaches a ≡ true

-- Whether a row passes a where clause; a comparison with NULL does not pass.
pub passes : Value → Option Condition → Bool
passes v none = true
passes v (some everything) = true
passes none (some (below_or_null ub)) = true
passes (some reaches) (some (below_or_null ub)) = not (reaches ub)
passes none (some (at_least lb)) = false
passes (some reaches) (some (at_least lb)) = reaches lb
passes none (some (between lb ub)) = false
passes (some reaches) (some (between lb ub)) = reaches lb && not (reaches ub)

abbrev pub reads : Value → Partition → Bool
reads v p = passes v p.where_clause

abbrev reach : Value → ℤ → Bool
reach none b = false
reach (some reaches) b = reaches b

-- The types that a bound may have.
abbrev pub IsSupported : Kind → Type 0
IsSupported whole = Unit
IsSupported decimal_number = Unit
IsSupported float = Unit
IsSupported datetime = Unit
IsSupported date = Unit
IsSupported boolean = ⊥
IsSupported (other t) = ⊥

internal-ok : (k : Kind) (n : ℤ) → IsSupported k → internal k n ≡ ok n
unfolding internal
internal-ok whole n h = refl
internal-ok decimal_number n h = refl
internal-ok float n h = refl
internal-ok datetime n h = refl
internal-ok date n h = refl
internal-ok boolean n h = absurd h
internal-ok (other t) n h = absurd h

internal-cases :
    (k : Kind) (n : ℤ)
    → (IsSupported k × (internal k n ≡ ok n))
      ⊎ ((¬ IsSupported k) × (internal k n ≡ err (unsupported_type k)))
unfolding internal
internal-cases whole n = inl (tt, refl)
internal-cases decimal_number n = inl (tt, refl)
internal-cases float n = inl (tt, refl)
internal-cases datetime n = inl (tt, refl)
internal-cases date n = inl (tt, refl)
internal-cases boolean n = inr (λ h. h, refl)
internal-cases (other t) n = inr (λ h. h, refl)

-- The partitions behind the first one read what is at least their lower bound.
tally-partitions_from :
    (stride : ℤ) (v : Value) (i left : ℕ) (current : ℤ)
    → IsOrdered v
    → pos 0 ≤ℤ stride
    → tally (reads v) (partitions_from stride (suc i) (suc left) current)
      ≡ (if reach v current then 1 else 0)
unfolding partitions_from where_of passes
tally-partitions_from stride none i zero current h s = ground arith
tally-partitions_from stride (some r) i zero current h s = ground arith
tally-partitions_from stride none i (suc left) current h s =
    ground (arith, tally-partitions_from stride none (i + 1) left (current +ℤ stride) h s)
tally-partitions_from stride (some r) i (suc left) current h s = ground (
  arith,
  tally-partitions_from stride (some r) (i + 1) left (current +ℤ stride) h s,
  h current (current +ℤ stride),
  le-+ℤ current stride s,
)

length-partitions_from :
    (stride : ℤ) (i left : ℕ) (current : ℤ) → length (partitions_from stride i left current) ≡ left
unfolding partitions_from
length-partitions_from stride i zero current = omega arith
length-partitions_from stride i (suc left) current =
    omega (arith, length-partitions_from stride (i + 1) left (current +ℤ stride))

module _ (stride_of : ℤ → ℤ → ℕ → ℤ) where
  pub length-partition_list :
      (lower upper : ℤ) (n : ℕ) → length (partition_list stride_of lower upper n) ≡ n
  unfolding partition_list
  length-partition_list lower upper n =
      ground (arith, length-partitions_from (stride_of lower upper n) 0 n lower)

  tally-first :
      (v : Value) (stride : ℤ) (left : ℕ) (lower : ℤ)
      → IsOrdered v
      → pos 0 ≤ℤ stride
      → tally (reads v) (partitions_from stride 0 (suc (suc left)) lower) ≡ 1
  unfolding partitions_from where_of passes
  tally-first none stride left lower h s =
      ground (arith, tally-partitions_from stride none 0 left (lower +ℤ stride) h s)
  tally-first (some r) stride left lower h s =
      ground (arith, tally-partitions_from stride (some r) 0 left (lower +ℤ stride) h s)

  tally-partition_list :
      (v : Value) (lower upper : ℤ) (n : ℕ)
      → IsOrdered v
      → pos 0 ≤ℤ stride_of lower upper n
      → 1 ≤ n
      → tally (reads v) (partition_list stride_of lower upper n) ≡ 1
  unfolding partition_list passes
  tally-partition_list v lower upper zero h s p = absurd (omega arith)
  tally-partition_list none lower upper (suc zero) h s p = refl
  tally-partition_list (some r) lower upper (suc zero) h s p = refl
  tally-partition_list v lower upper (suc (suc n)) h s p =
      ground (arith, tally-first v (stride_of lower upper (suc (suc n))) n lower h s)

  -- What the answer says of the bounds and of the count: a list is of bounds of one supported type, and has one
  -- partition per number asked for; a refusal names what is wrong.
  pub Explained : Bound → Bound → ℤ → Result Refused (List Partition) → Type 0
  Explained lower upper n (ok ps) =
      (lower.kind ≡ upper.kind) × IsSupported lower.kind × (pos 1 ≤ℤ n) × (length ps ≡ pos_part n)
  Explained lower upper n (err (types_differ k l)) = (k ≡ lower.kind) × (l ≡ upper.kind) × (k ≢ l)
  Explained lower upper n (err no_partitions) = (lower.kind ≡ upper.kind) × (n ≤ℤ pos 0)
  Explained lower upper n (err (unsupported_type k)) =
      (k ≡ lower.kind) × (lower.kind ≡ upper.kind) × ¬ IsSupported k

  supported_list :
      (lower upper : Bound) (n : ℤ)
      → lower.kind ≡ upper.kind
      → pos 1 ≤ℤ n
      → Explained lower upper n (
          get_internal_bound_value lower >>= λ low. get_internal_bound_value upper >>= λ top.
          ok (partition_list stride_of low top (pos_part n)))
  unfolding Explained get_internal_bound_value
  supported_list lower upper n same p = elim (internal-cases lower.kind lower.number) [
    | inl (s, e) ↦
        rw (e, internal-ok upper.kind upper.number (subst IsSupported same s))
          (same, s, p, length-partition_list lower.number upper.number (pos_part n))
    | inr (u, e) ↦ rw e (refl, same, u)
  ]

  checked_list-Explained :
      (lower upper : Bound) (n : ℤ) (d : Dec (lower.kind ≡ upper.kind))
      → Explained lower upper n (checked_list stride_of lower upper n d)
  unfolding checked_list Explained
  checked_list-Explained lower upper n (no differ) = (refl, refl, differ)
  checked_list-Explained lower upper n (yes same) = elim (Bool-cases (ltb_ℤ n (pos 1))) [
    | inl few ↦ rw few (same, ground (arith, few))
    | inr many ↦ rw many (supported_list lower upper n same (ground (arith, many)))
  ]

  -- Whatever the bounds and the number asked for: a list that is returned has one partition for each number asked for,
  -- at least one, and its bounds are of one supported type; and a refusal names a reason that is there, the first of
  -- differing types, a number below one, and an unsupported type.
  pub get_partition_list-Explained :
      (lower upper : Bound) (n : ℤ)
      → Explained lower upper n (get_partition_list stride_of lower upper n)
  unfolding get_partition_list
  get_partition_list-Explained lower upper n =
      checked_list-Explained lower upper n (Kind-discrete lower.kind upper.kind)

  pub Whole : Value → Result Refused (List Partition) → Type 0
  Whole v (ok ps) = tally (reads v) ps ≡ 1
  Whole v (err e) = ⊥

  supported_list-Whole :
      (v : Value) (lower upper : Bound) (n : ℤ)
      → IsOrdered v
      → pos 0 ≤ℤ stride_of lower.number upper.number (pos_part n)
      → lower.kind ≡ upper.kind
      → IsSupported lower.kind
      → pos 1 ≤ℤ n
      → (d : Dec (lower.kind ≡ upper.kind)) → Whole v (checked_list stride_of lower upper n d)
  unfolding checked_list Whole get_internal_bound_value
  supported_list-Whole v lower upper n h s same known p (no differ) = absurd (differ same)
  supported_list-Whole v lower upper n h s same known p (yes _) =
      let many : ltb_ℤ n (pos 1) ≡ false = ground arith in
      rw
        (
          many,
          internal-ok lower.kind lower.number known,
          internal-ok upper.kind upper.number (subst IsSupported same known),
        )
        (tally-partition_list v lower.number upper.number (pos_part n) h s (ground arith))

  -- With bounds of one supported type and at least one partition asked for, the list is returned; and as the stride is
  -- not negative while the bounds are in order, every row is read by exactly one partition, also one whose value is
  -- NULL or outside the bounds.
  pub get_partition_list-Whole :
      (v : Value) (lower upper : Bound) (n : ℤ)
      → IsOrdered v
      → ((a b : ℤ) (m : ℕ) → a ≤ℤ b → pos 0 ≤ℤ stride_of a b m)
      → lower.number ≤ℤ upper.number
      → lower.kind ≡ upper.kind
      → IsSupported lower.kind
      → pos 1 ≤ℤ n
      → Whole v (get_partition_list stride_of lower upper n)
  unfolding get_partition_list
  get_partition_list-Whole v lower upper n h keeps le same known p =
      supported_list-Whole v lower upper n h (keeps lower.number upper.number (pos_part n) le) same
        known p (Kind-discrete lower.kind upper.kind)
