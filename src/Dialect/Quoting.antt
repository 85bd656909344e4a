-- ===== src/Dialect/Quoting.antt =====
-- source_adapters.py: readers of quoted names and values, and the texts that an adapter quotes.
use lakefed_ingest.Prelude.{
  ℕ, Option, none, some, Bool, true, false, ◌&&◌, [], ◌∷◌, ◌++◌, append_assoc, Text, if◌then◌else◌,
  ◌==◌, ◌≡◌, refl, arith,
}
use lakefed_ingest.Strategies.{SrcType, sqlserver, oracle, postgresql, mysql}
use lakefed_ingest.Dialect.{
  doubled, ident_open, ident_close, quote_ident, apostrophe, backslash, escaped_value, quote_str,
}

-- Where a reader of a quoted text is: inside, behind a closing character, which is the end unless another one
-- follows, or behind a backslash.
pub data Mode : Type 0 where
  inside closed escape : Mode

abbrev push : ℕ → Option (Text × Text) → Option (Text × Text)
push c none = none
push c (some (value, rest)) = some (c ∷ value, rest)

-- How a database reads a quoted text behind its opening character: the value, and what follows it. With `escapes` a
-- backslash begins an escape; those of other characters than itself are not read.
pub read_quoted : ℕ → Bool → Mode → Text → Option (Text × Text)
read_quoted close escapes inside [] = none
read_quoted close escapes closed [] = some ([], [])
read_quoted close escapes escape [] = none
read_quoted close escapes inside (c ∷ s) =
    let in_escape = read_quoted close escapes escape s in
    let behind = read_quoted close escapes closed s in
    let more = push c (read_quoted close escapes inside s) in
    if escapes && c == backslash then in_escape else (if c == close then behind else more)
read_quoted close escapes closed (c ∷ s) =
    let more = push c (read_quoted close escapes inside s) in
    if c == close then more else some ([], c ∷ s)
read_quoted close escapes escape (c ∷ s) =
    let more = push c (read_quoted close escapes inside s) in if c == backslash then more else none

-- Reads one given character, then a quoted text.
pub read_after : ℕ → ℕ → Bool → Text → Option (Text × Text)
read_after first close escapes [] = none
read_after first close escapes (c ∷ s) =
    let value = read_quoted close escapes inside s in if c == first then value else none

pub read_ident : SrcType → Text → Option (Text × Text)
unfolding read_after read_quoted
read_ident a = read_after (ident_open a) (ident_close a) false

-- The prefix of SQL Server's national literals, then the literal.
pub read_str : SrcType → Text → Option (Text × Text)
unfolding read_after read_quoted
read_str sqlserver [] = none
read_str sqlserver (c ∷ s) =
    let value = read_after apostrophe apostrophe false s in if c == b'N' then value else none
read_str oracle s = read_after apostrophe apostrophe false s
read_str postgresql s = read_after apostrophe apostrophe false s
read_str mysql s = read_after apostrophe apostrophe true s

-- What stands behind a quoted text does not begin with its closing character.
abbrev pub Ends : ℕ → Text → Type 0
Ends close [] = Unit
Ends close (c ∷ s) = (c == close) ≡ false

closed-lem :
    (close : ℕ) (escapes : Bool) (rest : Text)
    → Ends close rest
    → read_quoted close escapes closed rest ≡ some ([], rest)
unfolding read_quoted
closed-lem close escapes [] h = refl
closed-lem close escapes (c ∷ rest) h = rw h

read_quoted-doubled :
    (close : ℕ) (value rest : Text)
    → Ends close rest
    → read_quoted close false inside (doubled close value ++ close ∷ rest) ≡ some (value, rest)
unfolding read_quoted doubled
read_quoted-doubled close [] rest h = ground (arith, closed-lem close false rest h)
read_quoted-doubled close (c ∷ value) rest h =
    ground (arith, read_quoted-doubled close value rest h)

read_quoted-escaped :
    (value rest : Text)
    → Ends apostrophe rest
    → read_quoted apostrophe true inside
        (doubled apostrophe (doubled backslash value) ++ apostrophe ∷ rest)
      ≡ some (value, rest)
unfolding read_quoted doubled
read_quoted-escaped [] rest h = ground (arith, closed-lem apostrophe true rest h)
read_quoted-escaped (c ∷ value) rest h = ground (arith, read_quoted-escaped value rest h)

behind : (c : ℕ) (s rest : Text) → (s ++ c ∷ []) ++ rest ≡ s ++ c ∷ rest
behind c s rest = append_assoc s (c ∷ []) rest

quote_ident-read :
    (a : SrcType) (name rest : Text)
    → Ends (ident_close a) rest
    → read_ident a (quote_ident a name ++ rest) ≡ some (name, rest)
unfolding read_ident read_after quote_ident
quote_ident-read sqlserver name rest h =
    rw (behind (b']') (doubled (b']') name) rest) (read_quoted-doubled (b']') name rest h)
quote_ident-read oracle name rest h =
    rw (behind (b'"') (doubled (b'"') name) rest) (read_quoted-doubled (b'"') name rest h)
quote_ident-read postgresql name rest h =
    rw (behind (b'"') (doubled (b'"') name) rest) (read_quoted-doubled (b'"') name rest h)
quote_ident-read mysql name rest h =
    rw (behind (b'`') (doubled (b'`') name) rest) (read_quoted-doubled (b'`') name rest h)

quote_str-read :
    (a : SrcType) (value rest : Text)
    → Ends apostrophe rest
    → read_str a (quote_str a value ++ rest) ≡ some (value, rest)
unfolding read_str read_after quote_str escaped_value
quote_str-read sqlserver value rest h =
    rw (behind apostrophe (doubled apostrophe value) rest)
      (read_quoted-doubled apostrophe value rest h)
quote_str-read oracle value rest h =
    rw (behind apostrophe (doubled apostrophe value) rest)
      (read_quoted-doubled apostrophe value rest h)
quote_str-read postgresql value rest h =
    rw (behind apostrophe (doubled apostrophe value) rest)
      (read_quoted-doubled apostrophe value rest h)
quote_str-read mysql value rest h =
    rw (behind apostrophe (doubled apostrophe (doubled backslash value)) rest)
      (read_quoted-escaped value rest h)

-- Of each engine: a name, and a value, that an adapter quotes are read back whole by that engine's rules, whatever
-- characters they have and whatever follows that does not begin with the closing character.
pub quoted-read :
    (a : SrcType) (text behind_name behind_value : Text)
    → Ends (ident_close a) behind_name
    → Ends apostrophe behind_value
    → (read_ident a (quote_ident a text ++ behind_name) ≡ some (text, behind_name))
      × (read_str a (quote_str a text ++ behind_value) ≡ some (text, behind_value))
quoted-read a text behind_name behind_value h k =
    (quote_ident-read a text behind_name h, quote_str-read a text behind_value k)
