-- ===== src/Conversions/TableRow/RoundTrip.antt =====
-- The decoder against the text format of `COPY`: an independent description of a line and of what
-- its values are.
use pg_replicate.Base.{
  ℕ, ◌≡◌, ◌≢◌, refl, ap, ◌∙◌, sym, Bool, false, Option, none, some, List, [], ◌∷◌, ◌++◌, codes,
  text_eq, text_eq_sound, text_eq_refl, ◌==◌, if◌then◌else◌, Result, ok, err, and_then, arith,
  append_assoc, append-nil, map_err, Bool-cases, inl, inr, All,
}
use mathlib.Core.Path.{fun_ext}
use pg_replicate.Base.{Text}
use pg_replicate.Schema.{ColumnSchema}
use pg_replicate.Conversions.Cell.{Cell, Externals}
use pg_replicate.Conversions.TextFormat.{try_from_str}
use pg_replicate.Conversions.TableRow.{
  TableRowConversionError, num_cols_mismatch, invalid_value, Scan, value, take_value, scan, start,
  try_from,
}

-- The backslash sequence, or the character itself.
escape_char : ℕ → Text
escape_char c =
    if c == b'\\'
    then b'\\' ∷ b'\\' ∷ []
    else if c == 8
    then b'\\' ∷ b'b' ∷ []
    else if c == 12
    then b'\\' ∷ b'f' ∷ []
    else if c == 10
    then b'\\' ∷ b'n' ∷ []
    else if c == 13
    then b'\\' ∷ b'r' ∷ []
    else if c == 9
    then b'\\' ∷ b't' ∷ []
    else if c == 11
    then b'\\' ∷ b'v' ∷ []
    else c ∷ []

pub escape : Text → Text
unfolding escape_char
escape [] = []
escape (c ∷ s) = escape_char c ++ escape s

-- A null is written as a backslash and N.
pub field_text : Option Text → Text
unfolding escape
field_text none = codes "\\N"
field_text (some s) = escape s

-- The fields of a line, with tabs between them and a newline at the end.
pub copy_line : Option Text → List (Option Text) → Text
unfolding field_text
copy_line o [] = field_text o ++ 10 ∷ []
copy_line o (p ∷ os) = field_text o ++ 9 ∷ copy_line p os

abbrev second : Text → ℕ
second (a ∷ b ∷ s) = b
second _ = 0

abbrev unwrap_or_empty : Option Text → Text
unwrap_or_empty none = []
unwrap_or_empty (some s) = s

copy_line-ne : (os : List (Option Text)) → copy_line (some (codes "\\N")) os ≢ copy_line none os
unfolding copy_line
copy_line-ne [] e = absurd (omega (arith, ap second e))
copy_line-ne (p ∷ os) e = absurd (omega (arith, ap second e))

abbrev at_value : Text → Bool → Scan
at_value val done = record { val_str = val; in_escape = false; row_terminated = done }

module _ {X : Type 0} (ext : Externals X) where
  -- The value of a field in a column.
  pub cell : ColumnSchema → Option Text → Result TableRowConversionError (Cell X)
  cell column none = ok (Cell.null column.typ)
  cell column (some s) = map_err invalid_value (try_from_str ext column.typ s)

  -- The values of the fields, column by column. More fields than columns are an error; columns
  -- without a field are left out.
  pub cells :
      List ColumnSchema
      → List (Option Text)
      → List (Cell X)
      → Result TableRowConversionError (List (Cell X))
  unfolding cell
  cells columns [] values = ok values
  cells [] (o ∷ os) values = err num_cols_mismatch
  cells (column ∷ columns) (o ∷ os) values =
      and_then (cell column o) λ v. cells columns os (values ++ v ∷ [])

  scan-char :
      (c : ℕ) (val rest : Text) (done : Bool) (columns : List ColumnSchema) (values : List (Cell X))
      → scan ext (escape_char c ++ rest) (at_value val done) columns values
        ≡ scan ext rest (at_value (val ++ c ∷ []) done) columns values
  unfolding scan escape_char
  scan-char c val rest done columns values = ground arith

  scan-escape :
      (s val rest : Text) (done : Bool) (columns : List ColumnSchema) (values : List (Cell X))
      → scan ext (escape s ++ rest) (at_value val done) columns values
        ≡ scan ext rest (at_value (val ++ s) done) columns values
  unfolding escape
  scan-escape [] val rest done columns values =
      ap (λ t. scan ext rest (at_value t done) columns values) (sym (append-nil val))
  scan-escape (c ∷ s) val rest done columns values =
      rw (append_assoc (escape_char c) (escape s) rest) (
        scan-char c val (escape s ++ rest) done columns values
        ∙ scan-escape s (val ++ c ∷ []) rest done columns values
        ∙ ap (λ v. scan ext rest (at_value v done) columns values) (append_assoc val (c ∷ []) s))

  -- What the scanner has in `val_str` at the end of a field.
  abbrev raw : Option Text → Text
  raw none = codes "\\N"
  raw (some s) = s

  scan-field :
      (o : Option Text) (rest : Text) (done : Bool) (columns : List ColumnSchema)
      (values : List (Cell X))
      → scan ext (field_text o ++ rest) (at_value [] done) columns values
        ≡ scan ext rest (at_value (raw o) done) columns values
  unfolding field_text
  scan-field none rest done columns values = unfold scan in refl
  scan-field (some s) rest done columns values = scan-escape s [] rest done columns values

  value-raw :
      (column : ColumnSchema) (o : Option Text)
      → o ≢ some (codes "\\N")
      → value ext column (raw o) ≡ cell column o
  unfolding value cell
  value-raw column none ne = rw (text_eq_refl (codes "\\N"))
  value-raw column (some s) ne = elim (Bool-cases (text_eq s (codes "\\N"))) [
    | inl same ↦ absurd (ne (ap some (text_eq_sound s _ same)))
    | inr other ↦ rw other
  ]

  -- A separator outside an escape: the value goes to the next column.
  scan-tab :
      (val rest : Text) (done : Bool) (columns : List ColumnSchema) (values : List (Cell X))
      → scan ext (9 ∷ rest) (at_value val done) columns values
        ≡ take_value ext columns val
            (λ left v. scan ext rest (at_value [] done) left (values ++ v ∷ []))
  unfolding scan
  scan-tab val rest done columns values = ground arith

  scan-newline :
      (val : Text) (done : Bool) (columns : List ColumnSchema) (values : List (Cell X))
      → scan ext (10 ∷ []) (at_value val done) columns values
        ≡ take_value ext columns val (λ left v. ok (values ++ v ∷ []))
  unfolding scan
  scan-newline val done columns values = ground arith

  take_value-cells :
      (o : Option Text) (os : List (Option Text)) (columns : List ColumnSchema)
      (values : List (Cell X))
      (rest : List ColumnSchema → Cell X → Result TableRowConversionError (List (Cell X)))
      → o ≢ some (codes "\\N")
      → ((left : List ColumnSchema) (v : Cell X) → rest left v ≡ cells left os (values ++ v ∷ []))
      → take_value ext columns (raw o) rest ≡ cells columns (o ∷ os) values
  unfolding take_value cells
  take_value-cells o os [] values rest ne same = refl
  take_value-cells o os (column ∷ columns) values rest ne same =
      rw (value-raw column o ne, fun_ext (same columns))

  scan-copy_line :
      (o : Option Text) (os : List (Option Text)) (columns : List ColumnSchema)
      (values : List (Cell X))
      → All (λ p. p ≢ some (codes "\\N")) (o ∷ os)
      → scan ext (copy_line o os) start columns values ≡ cells columns (o ∷ os) values
  unfolding copy_line
  scan-copy_line o [] columns values h =
      scan-field o (10 ∷ []) false columns values
      ∙ scan-newline (raw o) false columns values
      ∙ take_value-cells o [] columns values _ h.0 (λ left v. unfold cells in refl)
  scan-copy_line o (p ∷ os) columns values h =
      scan-field o (9 ∷ copy_line p os) false columns values
      ∙ scan-tab (raw o) (copy_line p os) false columns values
      ∙ take_value-cells o (p ∷ os) columns values _ h.0
          (λ left v. scan-copy_line p os left (values ++ v ∷ []) h.1)

  -- A line of `COPY` whose fields are texts other than backslash-N, or nulls, decodes to the values
  -- of its fields in the order of the columns, and to the first error among them; a field too many
  -- is `num_cols_mismatch`. It is assumed that the row's bytes are the UTF-8 of that line.
  pub try_from-copy_line :
      (row : List ℕ) (o : Option Text) (os : List (Option Text)) (columns : List ColumnSchema)
      → ext.from_utf8 row ≡ some (copy_line o os)
      → All (λ p. p ≢ some (codes "\\N")) (o ∷ os)
      → try_from ext row columns
        ≡ and_then (cells columns (o ∷ os) []) (λ values. ok (record { values = values }))
  unfolding try_from
  try_from-copy_line row o os columns utf8 h = rw (utf8, scan-copy_line o os columns [] h)

  scan-alike :
      (os : List (Option Text)) (columns : List ColumnSchema)
      → scan ext (copy_line (some (codes "\\N")) os) start columns []
        ≡ scan ext (copy_line none os) start columns []
  unfolding copy_line
  scan-alike [] columns =
      scan-field (some (codes "\\N")) _ false columns [] ∙ sym (scan-field none _ false columns [])
  scan-alike (p ∷ os) columns =
      scan-field (some (codes "\\N")) _ false columns [] ∙ sym (scan-field none _ false columns [])

  -- A text that is backslash-N is read as a null: the line with that text as its first field and the
  -- line with a null there decode alike, whatever the other fields and the columns are.
  pub backslash_n_reads_null :
      (row null_row : List ℕ) (os : List (Option Text)) (columns : List ColumnSchema)
      → ext.from_utf8 row ≡ some (copy_line (some (codes "\\N")) os)
      → ext.from_utf8 null_row ≡ some (copy_line none os)
      → (row ≢ null_row) × (try_from ext row columns ≡ try_from ext null_row columns)
  unfolding try_from
  backslash_n_reads_null row null_row os columns u n = (
    λ e. copy_line-ne os (ap unwrap_or_empty (sym u ∙ ap ext.from_utf8 e ∙ n)),
    rw (u, n, scan-alike os columns),
  )
