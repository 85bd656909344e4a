-- ===== src/Planner/Rows.antt =====
-- planner.py: whether a row still writes what its checkpoint was written for.
use lakefed_ingest.Prelude.{
  ℕ, Option, none, some, Bool, false, not, ◌&&◌, List, [], ◌∷◌, Text, ◌==◌, codes, text_mem, lower,
  strip, join, option_text_eq, Result, ok, err, ◌>>=◌, if◌then◌else◌,
}
use lakefed_ingest.Strategies.{Unsupported}
use lakefed_ingest.Control.{ControlRow, Checkpoint, Problem, bad_pair}
use lakefed_ingest.Control.Identity.{Identity, identity_values}
use lakefed_ingest.Planner.Plans.{
  Reason, source_changed, sink_changed, primary_key_changed, sink_missing,
}

abbrev pub as_problem {ℓ} : {A : Type ℓ} → Result Unsupported A → Result Problem A
as_problem (ok a) = ok a
as_problem (err e) = err (bad_pair e)

-- `recorded is not None and recorded != current`
abbrev pub differs : Option Text → Option Text → Bool
differs none current = false
differs (some recorded) current = not (option_text_eq (some recorded) current)

-- The loop over `IDENTITY_REASONS`.
unfoldable pub identity_reason : Identity → Checkpoint → Option Reason
identity_reason current cp =
    if differs cp.source_identity (some current.source)
    then some source_changed
    else (if differs cp.sink_identity (some current.sink)
        then some sink_changed
        else (if differs cp.merge_key current.key then some primary_key_changed else none))

unfoldable pub identity_change : ControlRow → Option Checkpoint → Result Problem (Option Reason)
identity_change cfg none = ok none
identity_change cfg (some cp) = do
  current ← as_problem (identity_values cfg)
  ok (identity_reason current cp)

-- `name[1:-1]` of a text of two characters or more.
abbrev drop_last : Text → Text
drop_last [] = []
drop_last (c ∷ []) = []
drop_last (c ∷ d ∷ s) = c ∷ drop_last (d ∷ s)

abbrev last_is : ℕ → Text → Bool
last_is q [] = false
last_is q (c ∷ []) = c == q
last_is q (c ∷ d ∷ s) = last_is q (d ∷ s)

-- `.replace("``", "`")`
abbrev single_quotes : Text → Text
single_quotes [] = []
single_quotes (c ∷ []) = c ∷ []
single_quotes (c ∷ d ∷ s) =
    let both = c ∷ single_quotes s in
    let one = c ∷ single_quotes (d ∷ s) in if c == b'`' && d == b'`' then both else one

unquoted : Text → Text
unquoted [] = []
unquoted (c ∷ s) = if c == b'`' && last_is b'`' s then single_quotes (drop_last s) else c ∷ s

unfoldable pub bare_ident : Text → Text
unfolding unquoted
bare_ident name = unquoted (strip name)

unfoldable pub sink_lookup_key : ControlRow → Text
sink_lookup_key cfg = join (codes ".") (
    lower (bare_ident cfg.sink_catalog)
    ∷ lower (bare_ident cfg.sink_schema)
    ∷ lower (bare_ident cfg.sink_table)
    ∷ [])

-- `sink_missing`; `none` for `existing_sinks` is "unknown".
unfoldable pub missing_sink : ControlRow → Option (List Text) → Option Reason
missing_sink cfg none = none
missing_sink cfg (some sinks) =
    if text_mem (sink_lookup_key cfg) sinks then none else some sink_missing

-- `identity_change(cfg, cp) or sink_missing(cfg, existing_sinks)`
unfoldable pub moved :
    ControlRow → Option Checkpoint → Option (List Text) → Result Problem (Option Reason)
moved cfg cp sinks = do
  change ← identity_change cfg cp
  elim change [ some reason ↦ ok (some reason) | none ↦ ok (missing_sink cfg sinks) ]
