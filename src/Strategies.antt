-- ===== src/Strategies.antt =====
-- load_strategies.py, and the choice of an adapter in source_adapters.py: which pairs of a source
-- engine and a load type run today.
use lakefed_ingest.Prelude.{
  Option, none, some, Bool, true, false, not, ◌||◌, Text, codes, text_eq, or_text, lower, strip,
  strip_spaces, Result, ok, err, if◌then◌else◌, ℕ, List, [], ◌∷◌, map, filter_by,
}
pub mod Support

-- An adapter of `_ADAPTERS`, named by its `src_type`.
pub data SrcType : Type 0 where
  sqlserver oracle postgresql mysql : SrcType

-- A strategy of `_STRATEGIES`, named by its `name`.
pub data Strategy : Type 0 where
  ct full cursor cdc : Strategy

pub SrcType-discrete : Discrete SrcType
SrcType-discrete = hlevel

-- Why a pair does not run: the messages of `unsupported_reason`.
pub data Unsupported : Type 0 where
  unknown_src_type : Option Text → Unsupported
  unknown_load_type : Option Text → Unsupported
  not_implemented : SrcType → Strategy → Unsupported
  not_supported : SrcType → Strategy → List Strategy → Unsupported

unfoldable pub adapter_port : SrcType → ℕ
adapter_port sqlserver = 1433
adapter_port oracle = 1521
adapter_port postgresql = 5432
adapter_port mysql = 3306

abbrev pub src_type_name : SrcType → Text
src_type_name sqlserver = codes "sqlserver"
src_type_name oracle = codes "oracle"
src_type_name postgresql = codes "postgresql"
src_type_name mysql = codes "mysql"

abbrev pub strategy_text : Strategy → Text
strategy_text ct = codes "ct"
strategy_text full = codes "full"
strategy_text cursor = codes "cursor"
strategy_text cdc = codes "cdc"

abbrev pub src_types : List SrcType
src_types = sqlserver ∷ oracle ∷ postgresql ∷ mysql ∷ []

abbrev pub load_types : List Strategy
load_types = ct ∷ cdc ∷ cursor ∷ full ∷ []

-- The lookups `_ADAPTERS[key]` and `_STRATEGIES[key]`.
find_named : {A : Type 0} → (A → Text) → Text → List A → Option A
find_named name key [] = none
find_named name key (a ∷ rest) = if text_eq (name a) key then some a else find_named name key rest

unfoldable pub find_adapter : Text → Option SrcType
unfolding find_named
find_adapter key = find_named src_type_name key src_types

unfoldable pub find_strategy : Text → Option Strategy
unfolding find_named
find_strategy key = find_named strategy_text key (ct ∷ full ∷ cursor ∷ cdc ∷ [])

abbrev or_raise : {E A : Type 0} → E → Option A → Result E A
or_raise e none = err e
or_raise e (some a) = ok a

unfoldable pub get_adapter : Option Text → Result Unsupported SrcType
unfolding find_adapter
get_adapter src_type =
    or_raise (unknown_src_type src_type)
      (find_adapter (lower (strip (or_text src_type (codes "sqlserver")))))

-- `default_port`: 0 for a type with no adapter.
unfoldable pub default_port : Option Text → ℕ
unfolding adapter_port
default_port src_type =
    let key = or_text (some (lower (strip_spaces (or_text src_type [])))) (codes "sqlserver") in
    elim (find_adapter key) [ none ↦ 0 | some adapter ↦ adapter_port adapter ]

unfoldable pub get_strategy : Option Text → Result Unsupported Strategy
unfolding find_strategy
get_strategy load_type =
    or_raise (unknown_load_type load_type)
      (find_strategy (lower (strip (or_text load_type (codes "ct")))))

abbrev pub requires_pk : Strategy → Bool
requires_pk ct = true
requires_pk full = false
requires_pk cursor = true
requires_pk cdc = true

abbrev pub implemented : Strategy → Bool
implemented ct = true
implemented full = true
implemented cursor = true
implemented cdc = false

-- `(src_type, load_type) in SUPPORT`
abbrev pub in_support : SrcType → Strategy → Bool
in_support sqlserver ct = true
in_support sqlserver full = true
in_support sqlserver cursor = true
in_support oracle full = true
in_support postgresql full = true
in_support mysql full = true
in_support _ _ = false

-- `(src_type, load_type) in PLACEHOLDER`
abbrev pub in_placeholder : SrcType → Strategy → Bool
in_placeholder oracle cursor = true
in_placeholder postgresql cursor = true
in_placeholder mysql cursor = true
in_placeholder _ cdc = true
in_placeholder _ _ = false

-- `sorted(lt for st, lt in SUPPORT if st == adapter.src_type)`: by name.
abbrev pub supported_of : SrcType → List Strategy
supported_of src_type = filter_by (in_support src_type) (cdc ∷ ct ∷ cursor ∷ full ∷ [])

-- The part of `unsupported_reason` below its `try`.
unfoldable pub pair_reason : SrcType → Strategy → Option Unsupported
pair_reason adapter strategy =
    if in_support adapter strategy
    then none
    else (if not (implemented strategy) || in_placeholder adapter strategy
        then some (not_implemented adapter strategy)
        else some (not_supported adapter strategy (supported_of adapter)))

unfoldable pub unsupported_reason : Option Text → Option Text → Option Unsupported
unfolding pair_reason
unsupported_reason src_type load_type = elim (get_adapter src_type) [
  | err e ↦ some e
  | ok adapter ↦ elim (get_strategy load_type) [
    | err e ↦ some e
    | ok strategy ↦ pair_reason adapter strategy
  ]
]

unfoldable pub supported : Option Text → Option Text → Bool
unfolding unsupported_reason
supported src_type load_type = elim (unsupported_reason src_type load_type) [
  | none ↦ true
  | some _ ↦ false
]

pub data Cell : Type 0 where
  runs placeholder unavailable : Cell

abbrev pub matrix_cell : SrcType → Strategy → Cell
matrix_cell st lt =
    if in_support st lt
    then runs
    else (if in_placeholder st lt || not (implemented lt) then placeholder else unavailable)

unfoldable pub support_matrix : List (SrcType × List (Strategy × Cell))
support_matrix = map (λ st. (st, map (λ lt. (lt, matrix_cell st lt)) load_types)) src_types
