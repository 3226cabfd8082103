-- ===== src/Tests/Conversions.antt =====
-- The conversions at concrete inputs.
use pg_replicate.Base.{
  text_eq, ℕ, ◌≡◌, ◌≢◌, refl, ◌↔◌, ◌≤◌, ◌<◌, ◌+◌, Bool, true, false, Option, none, some, List, [],
  ◌∷◌, ok, and_then, arith, Text, codes, length, All,
}
use pg_replicate.Schema.{ColumnSchema, TableSchema, partial_eq}
use pg_replicate.Schema.Types.{PgType}
use pg_replicate.Schema.Compare.{comparable, partial_eq_iff}
use pg_replicate.Conversions.Cell.{Cell, TableRow}
use pg_replicate.Conversions.Hex.{from_bytea_hex}
use pg_replicate.Conversions.Hex.RoundTrip.{hex_text, from_bytea_hex-hex_text, from_bytea_hex_sound}
use pg_replicate.Conversions.ArrayText.{ArrayParseError, parse_array}
use pg_replicate.Conversions.ArrayText.RoundTrip.{
  array_text, is_null_word, keep, parse_array-array_text,
}
use pg_replicate.Conversions.TextFormat.{try_from_str}
use pg_replicate.Conversions.TableRow.{try_from}
use pg_replicate.Conversions.TableRow.RoundTrip.{
  copy_line, cells, try_from-copy_line, backslash_n_reads_null,
}
use pg_replicate.Conversions.Protocol.{TupleData}
use pg_replicate.Conversions.Event.{convert_cell, next_cell, convert_columns, convert_tuple_to_row}
use pg_replicate.Conversions.Event.Rows.{
  zip_convert, convert_tuple_to_row-zip, convert_tuple_to_row-length,
}
use pg_replicate.Tests.Fixtures.{ext}

abbrev column : Text → PgType → ColumnSchema
column name typ = record { name = name; typ = typ; modifier = 0; nullable = false; primary = false }

abbrev columns : List ColumnSchema
columns = column (codes "a") PgType.text ∷ column (codes "b") PgType.bool ∷ []

-- A text with a tab, and a null.
abbrev fields : List (Option Text)
fields = none ∷ []

try_from-copy_line_example :
    try_from ext (copy_line (some (codes "a\tb")) fields) columns
    ≡ and_then
        (cells ext columns (some (codes "a\tb") ∷ fields) [])
        (λ values. ok (record { values = values }))
try_from-copy_line_example =
    try_from-copy_line ext (copy_line (some (codes "a\tb")) fields) (some (codes "a\tb")) fields
      columns refl ((λ e. cc), ((λ e. cc), tt))

backslash_n_reads_null_example :
    (copy_line (some (codes "\\N")) [] ≢ copy_line none [])
    × (try_from ext (copy_line (some (codes "\\N")) []) columns
        ≡ try_from ext (copy_line none []) columns)
backslash_n_reads_null_example =
    backslash_n_reads_null ext (copy_line (some (codes "\\N")) []) (copy_line none []) [] columns
      refl refl

from_bytea_hex-hex_text_example :
    from_bytea_hex (b'\\' ∷ b'x' ∷ hex_text (222 ∷ 173 ∷ [])) ≡ ok (222 ∷ 173 ∷ [])
from_bytea_hex-hex_text_example =
    from_bytea_hex-hex_text (222 ∷ 173 ∷ []) (omega arith, (omega arith, tt))

from_bytea_hex_sound_example :
    (All (λ b. b < 256) (222 ∷ []))
    × (length (codes "\\xde") ≡ 2 + 1 + 1)
    × ((t : List ℕ) × (codes "\\xde" ≡ b'\\' ∷ b'x' ∷ t))
unfolding hex_text
from_bytea_hex_sound_example =
    from_bytea_hex_sound (codes "\\xde") (222 ∷ [])
      (from_bytea_hex-hex_text (222 ∷ []) (omega arith, tt))

lower : (s : Text) → text_eq (ext.to_lowercase s) (codes "null") ≡ is_null_word s
unfolding is_null_word
lower s = refl

parse_array-array_text_example :
    parse_array ext.to_lowercase
      (keep ext.to_lowercase)
      (λ (e : ArrayParseError). e)
      (array_text (some (codes "a,\"") ∷ none ∷ some (codes "12") ∷ []))
    ≡ ok (some (codes "a,\"") ∷ none ∷ some (codes "12") ∷ [])
parse_array-array_text_example =
    parse_array-array_text ext.to_lowercase lower (λ e. e)
      (some (codes "a,\"") ∷ none ∷ some (codes "12") ∷ [])

abbrev table : Bool → TableSchema
table nullable = record {
  id = 9;
  name = record { schema = codes "public"; name = codes "t" };
  column_schemas = record (column (codes "a") PgType.text) { nullable = nullable } ∷ [];
}

partial_eq_iff_example :
    (partial_eq (table true) (table false) ≡ true)
    ↔ (comparable (table true) ≡ comparable (table false))
partial_eq_iff_example = partial_eq_iff (table true) (table false)

abbrev tuple : List TupleData
tuple = TupleData.text (codes "x") ∷ TupleData.null ∷ []

convert_tuple_to_row-zip_example :
    convert_tuple_to_row ext columns tuple
    ≡ and_then (zip_convert ext 0 columns tuple) (λ values. ok (record { values = values }))
convert_tuple_to_row-zip_example = convert_tuple_to_row-zip ext columns tuple

abbrev row : TableRow ℕ
row = record { values = Cell.string (codes "x") ∷ Cell.null PgType.bool ∷ [] }

convert_tuple_to_row-length_example :
    (length row.values ≡ length columns) × (length columns ≤ length tuple)
unfolding convert_tuple_to_row convert_columns next_cell convert_cell try_from_str
convert_tuple_to_row-length_example = convert_tuple_to_row-length ext columns tuple row refl
