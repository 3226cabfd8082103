-- ===== src/Conversions/Encode/Length.antt =====
-- etl/src/conversions/mod.rs and table_row.rs: lengths of encoded values and rows.
use pg_replicate.Base.{ℕ, suc, ◌≡◌, refl, List, [], ◌∷◌, length, length-append, arith}
use pg_replicate.Conversions.Cell.{ArrayCell, Cell, TableRow, Externals}
use pg_replicate.Conversions.TextFormat.{default_value}
use pg_replicate.Conversions.Encode.{
  Encoding, Prost, encode_array, array_len, encode_value, value_len, encode_prost,
  encoded_len_prost, encode_cells, cells_len, encode_raw, encoded_len,
}

abbrev pub IsMeasured : {V : Type 0} → Encoding V → Type 0
IsMeasured {V} e = (tag : ℕ) (v : V) → length (e.encode tag v) ≡ e.encoded_len tag v

-- Each encoding gives the length of what it writes.
pub record AllMeasured {X : Type 0} (prost : Prost X) : Type 0 where
  pub bool : IsMeasured prost.bool
  pub string : IsMeasured prost.string
  pub int32 : IsMeasured prost.int32
  pub int64 : IsMeasured prost.int64
  pub uint32 : IsMeasured prost.uint32
  pub float : IsMeasured prost.float
  pub double : IsMeasured prost.double
  pub bytes : IsMeasured prost.bytes
  pub bools : IsMeasured prost.bools
  pub strings : IsMeasured prost.strings
  pub int32s : IsMeasured prost.int32s
  pub int64s : IsMeasured prost.int64s
  pub uint32s : IsMeasured prost.uint32s
  pub floats : IsMeasured prost.floats
  pub doubles : IsMeasured prost.doubles
  pub byte_strings : IsMeasured prost.byte_strings

module _ {X : Type 0} (ext : Externals X) (prost : Prost X) (measured : AllMeasured prost) where
  length-encode_array :
      (tag : ℕ) (a : ArrayCell X)
      → length (encode_array ext prost tag a) ≡ array_len ext prost tag a
  unfolding encode_array array_len
  length-encode_array tag ArrayCell.null = refl
  length-encode_array tag (ArrayCell.bool vec) = measured.bools tag _
  length-encode_array tag (ArrayCell.string vec) = measured.strings tag _
  length-encode_array tag (ArrayCell.i16 vec) = measured.int32s tag _
  length-encode_array tag (ArrayCell.i32 vec) = measured.int32s tag _
  length-encode_array tag (ArrayCell.u32 vec) = measured.uint32s tag _
  length-encode_array tag (ArrayCell.i64 vec) = measured.int64s tag _
  length-encode_array tag (ArrayCell.f32 vec) = measured.floats tag _
  length-encode_array tag (ArrayCell.f64 vec) = measured.doubles tag _
  length-encode_array tag (ArrayCell.numeric vec) = measured.strings tag _
  length-encode_array tag (ArrayCell.date vec) = measured.strings tag _
  length-encode_array tag (ArrayCell.time vec) = measured.strings tag _
  length-encode_array tag (ArrayCell.time_stamp vec) = measured.strings tag _
  length-encode_array tag (ArrayCell.time_stamp_tz vec) = measured.strings tag _
  length-encode_array tag (ArrayCell.uuid vec) = measured.strings tag _
  length-encode_array tag (ArrayCell.json vec) = measured.strings tag _
  length-encode_array tag (ArrayCell.bytes vec) = measured.byte_strings tag _

  length-encode_value :
      (tag : ℕ) (c : Cell X) → length (encode_value ext prost tag c) ≡ value_len ext prost tag c
  unfolding encode_value value_len
  length-encode_value tag (Cell.null typ) = refl
  length-encode_value tag (Cell.bool b) = measured.bool tag _
  length-encode_value tag (Cell.string s) = measured.string tag _
  length-encode_value tag (Cell.i16 i) = measured.int32 tag _
  length-encode_value tag (Cell.i32 i) = measured.int32 tag _
  length-encode_value tag (Cell.i64 i) = measured.int64 tag _
  length-encode_value tag (Cell.f32 i) = measured.float tag _
  length-encode_value tag (Cell.f64 i) = measured.double tag _
  length-encode_value tag (Cell.numeric n) = measured.string tag _
  length-encode_value tag (Cell.date t) = measured.string tag _
  length-encode_value tag (Cell.time t) = measured.string tag _
  length-encode_value tag (Cell.time_stamp t) = measured.string tag _
  length-encode_value tag (Cell.time_stamp_tz t) = measured.string tag _
  length-encode_value tag (Cell.uuid u) = measured.string tag _
  length-encode_value tag (Cell.json j) = measured.string tag _
  length-encode_value tag (Cell.u32 i) = measured.uint32 tag _
  length-encode_value tag (Cell.bytes b) = measured.bytes tag _
  length-encode_value tag (Cell.array a) = length-encode_array tag a

  length-encode_prost :
      (tag : ℕ) (c : Cell X)
      → length (encode_prost ext prost tag c) ≡ encoded_len_prost ext prost tag c
  unfolding encode_prost encoded_len_prost
  length-encode_prost tag (Cell.null typ) = length-encode_value tag (default_value ext typ)
  length-encode_prost tag c = length-encode_value tag c

  length-encode_cells :
      (tag : ℕ) (cs : List (Cell X))
      → length (encode_cells ext prost tag cs) ≡ cells_len ext prost tag cs
  unfolding encode_cells cells_len
  length-encode_cells tag [] = refl
  length-encode_cells tag (c ∷ cs) = omega (
    arith,
    length-append (encode_prost ext prost tag c) (encode_cells ext prost (suc tag) cs),
    length-encode_prost tag c,
    length-encode_cells (suc tag) cs,
  )

  -- The length that is given for a row, whatever its values, nulls and arrays with nulls included, is the
  -- number of the bytes that are written for it, if each encoding of the library gives the length of
  -- what it writes.
  pub length-encode_raw :
      (row : TableRow X) → length (encode_raw ext prost row) ≡ encoded_len ext prost row
  unfolding encode_raw encoded_len
  length-encode_raw row = length-encode_cells 1 row.values
