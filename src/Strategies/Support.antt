-- ===== src/Strategies/Support.antt =====
-- load_strategies.py: the support matrix against the planner's check of a pair.
use lakefed_ingest.Prelude.{
  Option, none, some, Bool, true, false, ◌≡◌, refl, ◌↔◌, Text, ok, arith, List, [], ◌∷◌, lower,
  strip, text_eq, Result-cases, inl, inr,
}
use lakefed_ingest.Strategies.{
  SrcType, Strategy, Cell, sqlserver, oracle, postgresql, mysql, ct, full, cursor, cdc, runs,
  src_type_name, strategy_text, get_adapter, get_strategy, unsupported_reason, pair_reason,
  supported, support_matrix, in_support,
}

row_cell : Strategy → List (Strategy × Cell) → Option Cell
row_cell lt [] = none
row_cell lt ((l, cell) ∷ row) = elim (same lt l) [ true ↦ some cell | false ↦ row_cell lt row ]
  where
    same : Strategy → Strategy → Bool
    same ct ct = true
    same full full = true
    same cursor cursor = true
    same cdc cdc = true
    same _ _ = false

-- The matrix's entry for a pair.
pub cell_of : SrcType → Strategy → List (SrcType × List (Strategy × Cell)) → Option Cell
unfolding row_cell
cell_of st lt [] = none
cell_of st lt ((s, row) ∷ rows) = elim (same st s) [
  | true ↦ row_cell lt row
  | false ↦ cell_of st lt rows
]
  where
    same : SrcType → SrcType → Bool
    same sqlserver sqlserver = true
    same oracle oracle = true
    same postgresql postgresql = true
    same mysql mysql = true
    same _ _ = false

get_adapter-src_type_name : (st : SrcType) → get_adapter (some (src_type_name st)) ≡ ok st
unfolding get_adapter lower strip text_eq
get_adapter-src_type_name sqlserver = refl
get_adapter-src_type_name oracle = refl
get_adapter-src_type_name _ = refl

get_strategy-strategy_text : (lt : Strategy) → get_strategy (some (strategy_text lt)) ≡ ok lt
unfolding get_strategy lower strip text_eq
get_strategy-strategy_text ct = refl
get_strategy-strategy_text _ = refl

supported-named :
    (st : SrcType) (lt : Strategy)
    → supported (some (src_type_name st)) (some (strategy_text lt)) ≡ in_support st lt
unfolding supported
supported-named st lt = ground (arith, get_adapter-src_type_name st, get_strategy-strategy_text lt)

-- The documented matrix says "yes" of a pair exactly when the planner runs rows of that pair.
pub matrix-supported :
    (st : SrcType) (lt : Strategy)
    → (cell_of st lt support_matrix ≡ some runs)
      ↔ (supported (some (src_type_name st)) (some (strategy_text lt)) ≡ true)
unfolding cell_of support_matrix
matrix-supported sqlserver ct = rw (supported-named sqlserver ct) (ground arith)
matrix-supported st lt = rw (supported-named st lt) (ground arith)

pair_reason-eq-none :
    (st : SrcType) (lt : Strategy) → pair_reason st lt ≡ none → in_support st lt ≡ true
unfolding pair_reason
pair_reason-eq-none st lt h = ground arith

abbrev Resolves : Option Text → Option Text → Type 0
Resolves s l =
    (st : SrcType) × (lt : Strategy) × (get_adapter s ≡ ok st)
    × (get_strategy l ≡ ok lt)
    × (in_support st lt ≡ true)

-- A pair that runs names an adapter and a strategy, in the support table.
pub unsupported_reason-eq-none : (s l : Option Text) → unsupported_reason s l ≡ none → Resolves s l
unfolding unsupported_reason
unsupported_reason-eq-none s l h = elim (Result-cases (get_adapter s)) [
  | inr (e, raised) ↦ absurd (ground arith)
  | inl (st, found) ↦ elim (Result-cases (get_strategy l)) [
    | inr (e, raised) ↦ absurd (ground arith)
    | inl (lt, named) ↦ (st, lt, found, named, pair_reason-eq-none st lt (ground arith))
  ]
]
