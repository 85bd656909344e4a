-- ===== src/Control/Sink.antt =====
-- ct_engine.py: the client of a consolidated sink, its identity columns, and the write mode.
use lakefed_ingest.Prelude.{
  ℕ, Option, none, some, Bool, true, false, not, ◌&&◌, ◌||◌, List, [], ◌∷◌, Text, codes, text_eq,
  text_mem, lower, strip, is_truthy, or_text, Result, ok, err, ◌>>=◌, if◌then◌else◌, leb, ◌==◌, all,
  length,
}
use lakefed_ingest.Control.{
  ControlRow, Json, null, bool, number, string, array, object, Fields, end, field, Loads, Problem,
  invalid_client_id, invalid_write_mode, attrs_not_json, attrs_not_object, invalid_attr_name,
  attr_given_twice, attr_not_scalar,
}

abbrev is_upper_or_lower : ℕ → Bool
is_upper_or_lower c = (leb b'A' c && leb c b'Z') || (leb b'a' c && leb c b'z')

abbrev is_digit : ℕ → Bool
is_digit c = leb b'0' c && leb c b'9'

-- `_CLIENT_ID`: 1 to 128 of A-Z a-z 0-9 _ . : - (on stripped text, so `$` is the end).
unfoldable pub is_client_id : Text → Bool
is_client_id v =
    leb 1 (length v)
    && leb (length v) 128
    && all
        (λ c. is_upper_or_lower c || is_digit c || c == b'_' || c == b'.' || c == b':' || c == b'-')
        v

unfoldable pub client_id : ControlRow → Result Problem (Option Text)
unfolding is_client_id
client_id cfg =
    let v = strip (or_text cfg.client_id []) in
    if is_truthy (some v)
    then (if is_client_id v then ok (some v) else err (invalid_client_id v))
    else ok none

-- `$` also matches before a newline at the end.
abbrev drop_newline : Text → Text
drop_newline [] = []
drop_newline (c ∷ []) = if c == 10 then [] else c ∷ []
drop_newline (c ∷ d ∷ s) = c ∷ drop_newline (d ∷ s)

abbrev is_dunder : Text → Bool
is_dunder [] = false
is_dunder (c ∷ []) = false
is_dunder (c ∷ d ∷ s) = c == b'_' && d == b'_'

-- `_ATTR_NAME.match(name) and not name.startswith("__")`
unfoldable pub is_attr_name : Text → Bool
is_attr_name [] = false
is_attr_name (c ∷ s) =
    let body = drop_newline s in
    (is_upper_or_lower c || c == b'_')
    && leb (length body) 127
    && all (λ d. is_upper_or_lower d || is_digit d || d == b'_') body
    && not (is_dunder (c ∷ s))

-- `None if value is None else str(value)`, on a scalar.
abbrev scalar_text : Text → Json → Result Problem (Option Text)
scalar_text name null = ok none
scalar_text name (bool true) = ok (some (codes "True"))
scalar_text name (bool false) = ok (some (codes "False"))
scalar_text name (number t) = ok (some t)
scalar_text name (string t) = ok (some t)
scalar_text name (array items) = err (attr_not_scalar name)
scalar_text name (object fields) = err (attr_not_scalar name)

-- The loop of `client_attrs` over the object's items; `seen` holds the names so far, lower-cased.
attrs_from : List Text → Fields → Result Problem (List (Text × Option Text))
unfolding is_attr_name
attrs_from seen end = ok []
attrs_from seen (field name value rest) =
    let after = attrs_from (lower name ∷ seen) rest in
    if not (is_attr_name name)
    then err (invalid_attr_name name)
    else (if text_mem (lower name) seen
        then err (attr_given_twice name)
        else do v ← scalar_text name value; out ← after; ok ((name, v) ∷ out))

abbrev object_attrs : Option Json → Result Problem (List (Text × Option Text))
unfolding attrs_from
object_attrs none = err attrs_not_json
object_attrs (some (object fields)) = attrs_from [] fields
object_attrs (some _) = err attrs_not_object

unfoldable pub client_attrs : Loads → ControlRow → Result Problem (List (Text × Option Text))
unfolding attrs_from
client_attrs loads cfg =
    let raw = or_text cfg.client_attrs [] in
    if is_truthy (some (strip raw)) then object_attrs (loads raw) else ok []

-- Whether the mode is append: `write_mode(cfg) == APPEND`.
unfoldable pub is_append : ControlRow → Result Problem Bool
is_append cfg =
    let mode = lower (strip (or_text cfg.write_mode (codes "merge"))) in
    if text_eq mode (codes "append")
    then ok true
    else (if text_eq mode (codes "merge")
        then ok false
        else err (invalid_write_mode cfg.write_mode))

abbrev pub client_column : Text
client_column = codes "__client_id__"

abbrev pub append_columns : List Text
append_columns =
    codes "__change_op" ∷ codes "__change_version" ∷ codes "__extracted_at" ∷ codes "__run_id" ∷ []
