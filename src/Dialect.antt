-- ===== src/Dialect.antt =====
-- source_adapters.py: the SQL that an adapter builds, as code points. An adapter is named by its `src_type`; the
-- methods that a subclass does not override have the base class's clause for it. Options, dates and the texts of
-- `table_size_mb_query` are left out.
pub mod Quoting
use lakefed_ingest.Prelude.{
  ℕ, ◌+◌, Option, none, some, Bool, true, false, List, [], ◌∷◌, ◌++◌, map, Text, codes, decimal,
  join, if◌then◌else◌, ◌==◌, strip, split_commas, is_truthy, filter_by,
}
use lakefed_ingest.Strategies.{SrcType, sqlserver, oracle, postgresql, mysql}

-- `text.replace(c, c + c)` for one character.
unfoldable pub doubled : ℕ → Text → Text
doubled c [] = []
doubled c (d ∷ s) = if d == c then d ∷ d ∷ doubled c s else d ∷ doubled c s

-- What stands before and behind a quoted identifier; the character behind is the one that is doubled.
abbrev pub ident_open : SrcType → ℕ
ident_open sqlserver = b'['
ident_open oracle = b'"'
ident_open postgresql = b'"'
ident_open mysql = b'`'

abbrev pub ident_close : SrcType → ℕ
ident_close sqlserver = b']'
ident_close oracle = b'"'
ident_close postgresql = b'"'
ident_close mysql = b'`'

unfoldable pub quote_ident : SrcType → Text → Text
unfolding doubled
quote_ident a name = ident_open a ∷ doubled (ident_close a) name ++ ident_close a ∷ []

abbrev pub apostrophe : ℕ
apostrophe = 39

abbrev pub backslash : ℕ
backslash = 92

-- Backslash is an escape character of MySQL's literals alone.
unfoldable pub escaped_value : SrcType → Text → Text
unfolding doubled
escaped_value sqlserver value = doubled apostrophe value
escaped_value oracle value = doubled apostrophe value
escaped_value postgresql value = doubled apostrophe value
escaped_value mysql value = doubled apostrophe (doubled backslash value)

abbrev pub str_prefix : SrcType → Text
str_prefix sqlserver = b'N' ∷ []
str_prefix oracle = []
str_prefix postgresql = []
str_prefix mysql = []

unfoldable pub quote_str : SrcType → Text → Text
unfolding escaped_value
quote_str a value = str_prefix a ++ apostrophe ∷ escaped_value a value ++ apostrophe ∷ []

unfoldable pub table_ref : SrcType → Text → Text → Text
unfolding quote_ident
table_ref a schema table = quote_ident a schema ++ codes "." ++ quote_ident a table

abbrev quoted_text : Text → Text
quoted_text text = apostrophe ∷ text ++ apostrophe ∷ []

unfoldable pub timestamp_literal : SrcType → Text → Text
timestamp_literal sqlserver text = quoted_text text
timestamp_literal oracle text = codes "TIMESTAMP " ++ quoted_text text
timestamp_literal postgresql text = codes "TIMESTAMP " ++ quoted_text text
timestamp_literal mysql text = quoted_text text

unfoldable pub date_literal : SrcType → Text → Text
date_literal sqlserver text = quoted_text text
date_literal oracle text = codes "DATE " ++ quoted_text text
date_literal postgresql text = codes "DATE " ++ quoted_text text
date_literal mysql text = quoted_text text

abbrev flag_text : Bool → Text
flag_text b = if b then codes "true" else codes "false"

-- A port of a control row is a number, so `int(port)` is that number.
unfoldable pub jdbc_url : SrcType → Text → ℕ → Text → Bool → Text
jdbc_url sqlserver host port database trust_cert =
    codes "jdbc:sqlserver://"
    ++ host
    ++ codes ":"
    ++ decimal port
    ++ codes ";databaseName="
    ++ database
    ++ codes ";encrypt=true;trustServerCertificate="
    ++ flag_text trust_cert
jdbc_url oracle host port database trust_cert =
    codes "jdbc:oracle:thin:@//" ++ host ++ codes ":" ++ decimal port ++ codes "/" ++ database
jdbc_url postgresql host port database trust_cert =
    codes "jdbc:postgresql://"
    ++ host
    ++ codes ":"
    ++ decimal port
    ++ codes "/"
    ++ database
    ++ (if trust_cert
        then codes "?sslmode=require"
        else codes "?sslmode=verify-full&sslfactory=org.postgresql.ssl.DefaultJavaSSLFactory")
jdbc_url mysql host port database trust_cert =
    codes "jdbc:mysql://"
    ++ host
    ++ codes ":"
    ++ decimal port
    ++ codes "/"
    ++ database
    ++ codes "?sslMode="
    ++ (if trust_cert then codes "REQUIRED" else codes "VERIFY_IDENTITY")
    ++ codes "&useCursorFetch=true"

unfoldable pub bounds_query : SrcType → Text → Text → Text → Text
unfolding quote_ident table_ref
bounds_query a schema table partition_col =
    let col = quote_ident a partition_col in
    codes "SELECT MIN("
    ++ col
    ++ codes ") AS lb, MAX("
    ++ col
    ++ codes ") AS ub FROM "
    ++ table_ref a schema table

-- `_split`: the names between commas, trimmed, without the blank ones.
unfoldable pub column_names : Text → List Text
column_names select_list =
    filter_by (λ c. is_truthy (some c)) (map strip (split_commas select_list))

unfoldable pub select_cols : SrcType → Text → Text
unfolding quote_ident column_names
select_cols a select_list = join (codes ", ") (map (quote_ident a) (column_names select_list))

unfoldable pub select_sql : SrcType → Text → Text → Text → Option Text → Text
unfolding select_cols table_ref
select_sql a select_list schema table condition =
    let sql =
      codes "SELECT " ++ select_cols a select_list ++ codes " FROM " ++ table_ref a schema table in
    elim condition [
      | none ↦ sql
      | some text ↦ if is_truthy (some text) then sql ++ codes " WHERE " ++ text else sql
    ]
