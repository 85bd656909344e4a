-- ===== src/Partitions.antt =====
-- partitions.py: the ranges that a partitioned seed reads a table by. The float arithmetic of the stride and the
-- texts of dates (`strftime`) are parameters; the size of a table in floats is left out.
pub mod Covers
use native.Mathlib.Decide.{ℕ_discrete}
use lakefed_ingest.Prelude.{
  ◌≡◌, ℕ, zero, suc, ◌+◌, Option, none, some, Bool, true, false, not, ◌&&◌, ◌||◌, List, [], ◌∷◌,
  ◌++◌, Text, codes, decimal, if◌then◌else◌, ltb, ◌==◌, Result, ok, err, ◌>>=◌, ℤ, pos, negsuc,
  ◌+ℤ◌, ◌-ℤ◌, ltb_ℤ, pos_part,
}
use lakefed_ingest.Strategies.{SrcType}
use lakefed_ingest.Dialect.{quote_ident, timestamp_literal, date_literal}

-- The types of a bound, as the driver gives them; the other types are told apart by number.
pub data Kind : Type 0 where
  whole decimal_number float datetime date boolean : Kind
  other : ℕ → Kind

pub Kind-discrete : Discrete Kind
Kind-discrete = hlevel ℕ_discrete

-- A bound: its type, and the number it has as `int(...)`, or as seconds of its UTC time.
pub record Bound : Type 0 where
  pub kind : Kind
  pub number : ℤ

pub data Refused : Type 0 where
  unsupported_type : Kind → Refused
  types_differ : Kind → Kind → Refused
  no_partitions : Refused

unfoldable pub internal : Kind → ℤ → Result Refused ℤ
internal whole n = ok n
internal decimal_number n = ok n
internal float n = ok n
internal datetime n = ok n
internal date n = ok n
internal boolean n = err (unsupported_type boolean)
internal (other t) n = err (unsupported_type (other t))

unfoldable pub get_internal_bound_value : Bound → Result Refused ℤ
unfolding internal
get_internal_bound_value b = internal b.kind b.number

-- A condition on the partition column; `where_text` spells it.
pub data Condition : Type 0 where
  everything : Condition
  below_or_null : ℤ → Condition
  at_least : ℤ → Condition
  between : ℤ → ℤ → Condition

pub record Partition : Type 0 where
  pub id : ℕ
  pub where_clause : Option Condition

-- The where clause of the bounds that there are.
unfoldable pub where_of : Option ℤ → Option ℤ → Option Condition
where_of none none = none
where_of (some lb) none = some (at_least lb)
where_of none (some ub) = some (below_or_null ub)
where_of (some lb) (some ub) = some (between lb ub)

-- The loop's rounds from `i` on, `left` of them.
unfoldable pub partitions_from : ℤ → ℕ → ℕ → ℤ → List Partition
unfolding where_of ◌+ℤ◌
partitions_from stride i zero current = []
partitions_from stride i (suc left) current =
    let next = current +ℤ stride in
    record {
      id = i;
      where_clause =
          where_of (if i == 0 then none else some current) (if left == 0 then none else some next);
    }
    ∷ partitions_from stride (i + 1) left next

module _ (stride_of : ℤ → ℤ → ℕ → ℤ) where
  -- `stride_of lower upper n` is `int(upper / n - lower / n)`, in floats.
  unfoldable pub partition_list : ℤ → ℤ → ℕ → List Partition
  unfolding partitions_from
  partition_list lower upper num_partitions =
      if num_partitions == 1
      then record { id = 0; where_clause = some everything } ∷ []
      else partitions_from (stride_of lower upper num_partitions) 0 num_partitions lower

  -- What follows the test of the bounds' types.
  unfoldable pub checked_list :
      (lower_bound upper_bound : Bound)
      → ℤ
      → Dec (lower_bound.kind ≡ upper_bound.kind)
      → Result Refused (List Partition)
  unfolding get_internal_bound_value partition_list
  checked_list lower_bound upper_bound num_partitions (no differ) =
      err (types_differ lower_bound.kind upper_bound.kind)
  checked_list lower_bound upper_bound num_partitions (yes same) =
      if ltb_ℤ num_partitions (pos 1)
      then err no_partitions
      else (get_internal_bound_value lower_bound >>= λ lower.
          get_internal_bound_value upper_bound >>= λ upper.
          ok (partition_list lower upper (pos_part num_partitions)))

  unfoldable pub get_partition_list : Bound → Bound → ℤ → Result Refused (List Partition)
  unfolding checked_list Kind-discrete
  get_partition_list lower_bound upper_bound num_partitions =
      checked_list lower_bound upper_bound num_partitions
        (Kind-discrete lower_bound.kind upper_bound.kind)

-- `max(1, min(n, span)) if span > 0 else 1`
unfoldable pub effective_num_partitions : Bound → Bound → ℤ → Result Refused ℤ
unfolding get_internal_bound_value ◌-ℤ◌
effective_num_partitions lower_bound upper_bound num_partitions =
    get_internal_bound_value upper_bound >>= λ upper.
    get_internal_bound_value lower_bound >>= λ lower.
    (let span = upper -ℤ lower in
      let least = if ltb_ℤ span num_partitions then span else num_partitions in
      ok (if ltb_ℤ (pos 0) span then (if ltb_ℤ (pos 1) least then least else pos 1) else pos 1))

-- `str(n)`
unfoldable pub int_text : ℤ → Text
int_text (pos n) = decimal n
int_text (negsuc n) = b'-' ∷ decimal (n + 1)

-- `render_bound` of the adapter; `written` and `written_day` give the texts of a UTC time.
unfoldable pub render_bound :
    (written written_day : ℤ → Text) → SrcType → ℤ → Kind → Result Refused Text
unfolding int_text timestamp_literal date_literal
render_bound written written_day a n whole = ok (int_text n)
render_bound written written_day a n decimal_number = ok (int_text n)
render_bound written written_day a n float = ok (int_text n)
render_bound written written_day a n datetime = ok (timestamp_literal a (written n))
render_bound written written_day a n date = ok (date_literal a (written_day n))
render_bound written written_day a n boolean = err (unsupported_type boolean)
render_bound written written_day a n (other t) = err (unsupported_type (other t))

-- The text of a clause, from the quoted column and the rendered bounds.
unfoldable pub where_text : (ℤ → Text) → Text → Condition → Text
where_text bound col everything = codes "1=1"
where_text bound col (below_or_null ub) =
    col ++ codes " < " ++ bound ub ++ codes " or " ++ col ++ codes " is null"
where_text bound col (at_least lb) = col ++ codes " >= " ++ bound lb
where_text bound col (between lb ub) =
    (col ++ codes " >= " ++ bound lb) ++ codes " and " ++ (col ++ codes " < " ++ bound ub)
