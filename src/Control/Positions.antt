-- ===== src/Control/Positions.antt =====
-- The resume position of a checkpoint, as the strategy that wrote it decodes it.
use lakefed_ingest.Prelude.{
  ℕ, Option, none, some, Bool, true, false, not, Text, codes, text_eq, text_mem, strip, [], ◌∷◌,
  is_truthy, or_text, int_of_text, Result, ok, err, if◌then◌else◌,
}
use lakefed_ingest.Control.{
  Checkpoint, Json, null, bool, number, string, array, object, nil, cons, Fields, end, field, Loads,
  Problem, not_a_version,
}

abbrev version_of : Text → Option ℕ → Result Problem ℕ
version_of text none = err (not_a_version text)
version_of text (some v) = ok v

-- `CtStrategy.decode_position`
unfoldable pub decode_version : Option Text → Result Problem ℕ
decode_version none = ok 0
decode_version (some text) =
    if is_truthy (some (strip text)) then version_of text (int_of_text text) else ok 0

-- `planner.ct_position`
unfoldable pub ct_position : Checkpoint → Result Problem ℕ
unfolding decode_version
ct_position cp = decode_version cp.position

-- `d.get(key)`
get_field : Text → Fields → Option Json
get_field key end = none
get_field key (field name value rest) = if text_eq name key then some value else get_field key rest

-- `not d.get(key)` is false of these.
abbrev is_set : Option Json → Bool
is_set none = false
is_set (some null) = false
is_set (some (bool b)) = b
is_set (some (number t)) = not (text_mem t (codes "0" ∷ codes "0.0" ∷ codes "-0.0" ∷ []))
is_set (some (string t)) = is_truthy (some t)
is_set (some (array nil)) = false
is_set (some (array (cons v vs))) = true
is_set (some (object end)) = false
is_set (some (object (field n v rest))) = true

abbrev or_null : Option Json → Json
or_null none = null
or_null (some v) = v

-- The position of a cursor checkpoint.
pub record CursorPosition : Type 0 where
  pub col : Json
  pub type : Json
  pub value : Json

cursor_fields : Option Json → Option CursorPosition
unfolding get_field
cursor_fields (some (object d)) =
    if is_set (get_field (codes "col") d)
    then (if is_set (get_field (codes "type") d)
        then some (record {
          col = or_null (get_field (codes "col") d);
          type = or_null (get_field (codes "type") d);
          value = or_null (get_field (codes "value") d);
        })
        else none)
    else none
cursor_fields _ = none

-- `cursor_engine.decode_position`
unfoldable pub decode_position : Loads → Option Text → Option CursorPosition
unfolding cursor_fields
decode_position loads text =
    if is_truthy text then cursor_fields (loads (or_text text [])) else none
