-- ===== src/Conversions/TableRow.antt =====
-- etl/src/conversions/table_row.rs: `TableRowConverter::try_from`, which decodes a line of the text
-- format of `COPY`.
pub mod RoundTrip
use pg_replicate.Base.{
  ℕ, Bool, true, false, ◌&&◌, ◌||◌, not, Option, none, some, List, [], ◌∷◌, ◌++◌, codes, text_eq,
  ◌==◌, if◌then◌else◌, Result, ok, err, and_then, map_err,
}
use pg_replicate.Base.{Text}
use pg_replicate.Schema.{ColumnSchema}
use pg_replicate.Conversions.Cell.{Cell, TableRow, Externals}
use pg_replicate.Conversions.TextFormat.{FromTextError, try_from_str}

pub data TableRowConversionError : Type 0 where
  invalid_string num_cols_mismatch unterminated_row : TableRowConversionError
  invalid_value : FromTextError → TableRowConversionError

-- What an escaped character adds to the value.
pub unescape : ℕ → Text
unescape c =
    if c == b'N'
    then b'\\' ∷ c ∷ []
    else if c == b'b'
    then 8 ∷ []
    else if c == b'f'
    then 12 ∷ []
    else if c == b'n'
    then 10 ∷ []
    else if c == b'r'
    then 13 ∷ []
    else if c == b't'
    then 9 ∷ []
    else if c == b'v'
    then 11 ∷ []
    else c ∷ []

-- `val_str`, `in_escape` and `row_terminated`.
pub record Scan : Type 0 where
  pub val_str : Text
  pub in_escape : Bool
  pub row_terminated : Bool

-- A tab or a newline outside an escape ends the value.
pub ends_value : ℕ → Scan → Bool
ends_value c s = not s.in_escape && ((c == 9) || (c == 10))

-- After a value: `val_str` is cleared, and a newline has set `row_terminated`.
pub next_value : ℕ → Scan → Scan
next_value c s = record {
  val_str = [];
  in_escape = false;
  row_terminated = s.row_terminated || (c == 10);
}

pub step : ℕ → Scan → Scan
unfolding unescape
step c s =
    if s.in_escape
    then record s { val_str = s.val_str ++ unescape c; in_escape = false }
    else if c == b'\\'
    then record s { in_escape = true }
    else record s { val_str = s.val_str ++ c ∷ [] }

abbrev pub start : Scan
start = record { val_str = []; in_escape = false; row_terminated = false }

module _ {X : Type 0} (ext : Externals X) where
  pub value : ColumnSchema → Text → Result TableRowConversionError (Cell X)
  value column_schema val_str =
      if text_eq val_str (codes "\\N")
      then ok (Cell.null column_schema.typ)
      else map_err invalid_value (try_from_str ext column_schema.typ val_str)

  -- The value of the next column, and then what `rest` makes of the columns behind it.
  pub take_value :
      {A : Type 0}
      → List ColumnSchema
      → Text
      → (List ColumnSchema → Cell X → Result TableRowConversionError A)
      → Result TableRowConversionError A
  take_value [] val_str rest = err num_cols_mismatch
  take_value (column_schema ∷ columns) val_str rest =
      and_then (value column_schema val_str) λ v. rest columns v

  -- The two loops in one: what is left of the line, its variables, the columns that are left, and
  -- `values`. At the end of the line whatever is in `val_str` is dropped.
  pub scan :
      Text
      → Scan
      → List ColumnSchema
      → List (Cell X)
      → Result TableRowConversionError (List (Cell X))
  unfolding step ends_value next_value take_value value
  scan [] s columns values = if s.row_terminated then ok values else err unterminated_row
  scan (c ∷ chars) s columns values =
      let next =
        take_value columns s.val_str
          (λ left v. scan chars (next_value c s) left (values ++ v ∷ [])) in
      let more = scan chars (step c s) columns values in if ends_value c s then next else more

  decode_text : Option Text → List ColumnSchema → Result TableRowConversionError (TableRow X)
  unfolding scan
  decode_text none columns = err invalid_string
  decode_text (some row_str) columns =
      and_then (scan row_str start columns []) λ values. ok (record { values = values })

  unfoldable pub try_from : List ℕ → List ColumnSchema → Result TableRowConversionError (TableRow X)
  unfolding decode_text
  try_from row column_schemas = decode_text (ext.from_utf8 row) column_schemas
