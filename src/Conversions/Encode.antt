-- ===== src/Conversions/Encode.antt =====
-- etl/src/conversions/mod.rs and the message of table_row.rs: the protobuf encoding of rows, as the bytes
-- that join the buffer.
pub mod Length
use pg_replicate.Base.{ℕ, suc, ◌+◌, Bool, Option, none, some, List, [], ◌∷◌, ◌++◌, map, Text, codes}
use pg_replicate.Base.Int.{ℤ}
use pg_replicate.Schema.Types.{PgType}
use pg_replicate.Conversions.Cell.{
  PgNumeric, nan, positive_inf, negative_inf, value, ArrayCell, Cell, TableRow, Externals,
}
use pg_replicate.Conversions.TextFormat.{default_value}

-- A module of `prost::encoding`: what it writes for a tag and a value, and the length that it gives.
pub record Encoding (V : Type 0) : Type 0 where
  pub encode : ℕ → V → List ℕ
  pub encoded_len : ℕ → V → ℕ

-- `encode`, and for lists `encode_packed` or `encode_repeated`, of each module; and the `to_string` and
-- `format` of the libraries.
pub record Prost (X : Type 0) : Type 0 where
  pub bool : Encoding Bool
  pub string : Encoding Text
  pub int32 : Encoding ℤ
  pub int64 : Encoding ℤ
  pub uint32 : Encoding ℕ
  pub float : Encoding X
  pub double : Encoding X
  pub bytes : Encoding (List ℕ)
  pub bools : Encoding (List Bool)
  pub strings : Encoding (List Text)
  pub int32s : Encoding (List ℤ)
  pub int64s : Encoding (List ℤ)
  pub uint32s : Encoding (List ℕ)
  pub floats : Encoding (List X)
  pub doubles : Encoding (List X)
  pub byte_strings : Encoding (List (List ℕ))
  pub decimal_text : X → Text
  pub uuid_text : X → Text
  pub json_text : X → Text
  pub format : Text → X → Text

-- `flatten`
flatten : {A : Type 0} → List (Option A) → List A
flatten [] = []
flatten (none ∷ vec) = flatten vec
flatten (some a ∷ vec) = a ∷ flatten vec

date_format : Text
date_format = codes "%Y-%m-%d"

time_format : Text
time_format = codes "%H:%M:%S%.f"

time_stamp_format : Text
time_stamp_format = codes "%Y-%m-%d %H:%M:%S%.f"

time_stamp_tz_format : Text
time_stamp_tz_format = codes "%Y-%m-%d %H:%M:%S%.f%:z"

module _ {X : Type 0} (ext : Externals X) (prost : Prost X) where
  numeric_text : PgNumeric X → Text
  numeric_text nan = codes "NaN"
  numeric_text positive_inf = codes "Infinity"
  numeric_text negative_inf = codes "-Infinity"
  numeric_text (value n) = prost.decimal_text n

  encode_array : ℕ → ArrayCell X → List ℕ
  unfolding flatten numeric_text date_format time_format time_stamp_format time_stamp_tz_format
  encode_array tag ArrayCell.null = []
  encode_array tag (ArrayCell.bool vec) = prost.bools.encode tag (flatten vec)
  encode_array tag (ArrayCell.string vec) = prost.strings.encode tag (flatten vec)
  encode_array tag (ArrayCell.i16 vec) = prost.int32s.encode tag (flatten vec)
  encode_array tag (ArrayCell.i32 vec) = prost.int32s.encode tag (flatten vec)
  encode_array tag (ArrayCell.u32 vec) = prost.uint32s.encode tag (flatten vec)
  encode_array tag (ArrayCell.i64 vec) = prost.int64s.encode tag (flatten vec)
  encode_array tag (ArrayCell.f32 vec) = prost.floats.encode tag (flatten vec)
  encode_array tag (ArrayCell.f64 vec) = prost.doubles.encode tag (flatten vec)
  encode_array tag (ArrayCell.numeric vec) =
      prost.strings.encode tag (map numeric_text (flatten vec))
  encode_array tag (ArrayCell.date vec) =
      prost.strings.encode tag (map (prost.format date_format) (flatten vec))
  encode_array tag (ArrayCell.time vec) =
      prost.strings.encode tag (map (prost.format time_format) (flatten vec))
  encode_array tag (ArrayCell.time_stamp vec) =
      prost.strings.encode tag (map (prost.format time_stamp_format) (flatten vec))
  encode_array tag (ArrayCell.time_stamp_tz vec) =
      prost.strings.encode tag (map (prost.format time_stamp_tz_format) (flatten vec))
  encode_array tag (ArrayCell.uuid vec) =
      prost.strings.encode tag (map prost.uuid_text (flatten vec))
  encode_array tag (ArrayCell.json vec) =
      prost.strings.encode tag (map prost.json_text (flatten vec))
  encode_array tag (ArrayCell.bytes vec) = prost.byte_strings.encode tag (flatten vec)

  array_len : ℕ → ArrayCell X → ℕ
  unfolding flatten numeric_text date_format time_format time_stamp_format time_stamp_tz_format
  array_len tag ArrayCell.null = 0
  array_len tag (ArrayCell.bool vec) = prost.bools.encoded_len tag (flatten vec)
  array_len tag (ArrayCell.string vec) = prost.strings.encoded_len tag (flatten vec)
  array_len tag (ArrayCell.i16 vec) = prost.int32s.encoded_len tag (flatten vec)
  array_len tag (ArrayCell.i32 vec) = prost.int32s.encoded_len tag (flatten vec)
  array_len tag (ArrayCell.u32 vec) = prost.uint32s.encoded_len tag (flatten vec)
  array_len tag (ArrayCell.i64 vec) = prost.int64s.encoded_len tag (flatten vec)
  array_len tag (ArrayCell.f32 vec) = prost.floats.encoded_len tag (flatten vec)
  array_len tag (ArrayCell.f64 vec) = prost.doubles.encoded_len tag (flatten vec)
  array_len tag (ArrayCell.numeric vec) =
      prost.strings.encoded_len tag (map numeric_text (flatten vec))
  array_len tag (ArrayCell.date vec) =
      prost.strings.encoded_len tag (map (prost.format date_format) (flatten vec))
  array_len tag (ArrayCell.time vec) =
      prost.strings.encoded_len tag (map (prost.format time_format) (flatten vec))
  array_len tag (ArrayCell.time_stamp vec) =
      prost.strings.encoded_len tag (map (prost.format time_stamp_format) (flatten vec))
  array_len tag (ArrayCell.time_stamp_tz vec) =
      prost.strings.encoded_len tag (map (prost.format time_stamp_tz_format) (flatten vec))
  array_len tag (ArrayCell.uuid vec) =
      prost.strings.encoded_len tag (map prost.uuid_text (flatten vec))
  array_len tag (ArrayCell.json vec) =
      prost.strings.encoded_len tag (map prost.json_text (flatten vec))
  array_len tag (ArrayCell.bytes vec) = prost.byte_strings.encoded_len tag (flatten vec)

  -- A value that is no null; the default values are none.
  encode_value : ℕ → Cell X → List ℕ
  unfolding encode_array numeric_text date_format time_format time_stamp_format time_stamp_tz_format
  encode_value tag (Cell.null typ) = []
  encode_value tag (Cell.bool b) = prost.bool.encode tag b
  encode_value tag (Cell.string s) = prost.string.encode tag s
  encode_value tag (Cell.i16 i) = prost.int32.encode tag i
  encode_value tag (Cell.i32 i) = prost.int32.encode tag i
  encode_value tag (Cell.i64 i) = prost.int64.encode tag i
  encode_value tag (Cell.f32 i) = prost.float.encode tag i
  encode_value tag (Cell.f64 i) = prost.double.encode tag i
  encode_value tag (Cell.numeric n) = prost.string.encode tag (numeric_text n)
  encode_value tag (Cell.date t) = prost.string.encode tag (prost.format date_format t)
  encode_value tag (Cell.time t) = prost.string.encode tag (prost.format time_format t)
  encode_value tag (Cell.time_stamp t) = prost.string.encode tag (prost.format time_stamp_format t)
  encode_value tag (Cell.time_stamp_tz t) =
      prost.string.encode tag (prost.format time_stamp_tz_format t)
  encode_value tag (Cell.uuid u) = prost.string.encode tag (prost.uuid_text u)
  encode_value tag (Cell.json j) = prost.string.encode tag (prost.json_text j)
  encode_value tag (Cell.u32 i) = prost.uint32.encode tag i
  encode_value tag (Cell.bytes b) = prost.bytes.encode tag b
  encode_value tag (Cell.array a) = encode_array tag a

  value_len : ℕ → Cell X → ℕ
  unfolding array_len numeric_text date_format time_format time_stamp_format time_stamp_tz_format
  value_len tag (Cell.null typ) = 0
  value_len tag (Cell.bool b) = prost.bool.encoded_len tag b
  value_len tag (Cell.string s) = prost.string.encoded_len tag s
  value_len tag (Cell.i16 i) = prost.int32.encoded_len tag i
  value_len tag (Cell.i32 i) = prost.int32.encoded_len tag i
  value_len tag (Cell.i64 i) = prost.int64.encoded_len tag i
  value_len tag (Cell.f32 i) = prost.float.encoded_len tag i
  value_len tag (Cell.f64 i) = prost.double.encoded_len tag i
  value_len tag (Cell.numeric n) = prost.string.encoded_len tag (numeric_text n)
  value_len tag (Cell.date t) = prost.string.encoded_len tag (prost.format date_format t)
  value_len tag (Cell.time t) = prost.string.encoded_len tag (prost.format time_format t)
  value_len tag (Cell.time_stamp t) =
      prost.string.encoded_len tag (prost.format time_stamp_format t)
  value_len tag (Cell.time_stamp_tz t) =
      prost.string.encoded_len tag (prost.format time_stamp_tz_format t)
  value_len tag (Cell.uuid u) = prost.string.encoded_len tag (prost.uuid_text u)
  value_len tag (Cell.json j) = prost.string.encoded_len tag (prost.json_text j)
  value_len tag (Cell.u32 i) = prost.uint32.encoded_len tag i
  value_len tag (Cell.bytes b) = prost.bytes.encoded_len tag b
  value_len tag (Cell.array a) = array_len tag a

  -- A null is written as the default value of its type.
  pub encode_prost : ℕ → Cell X → List ℕ
  unfolding encode_value
  encode_prost tag (Cell.null typ) = encode_value tag (default_value ext typ)
  encode_prost tag cell = encode_value tag cell

  pub encoded_len_prost : ℕ → Cell X → ℕ
  unfolding value_len
  encoded_len_prost tag (Cell.null typ) = value_len tag (default_value ext typ)
  encoded_len_prost tag cell = value_len tag cell

  unfoldable pub encode_cells : ℕ → List (Cell X) → List ℕ
  unfolding encode_prost
  encode_cells tag [] = []
  encode_cells tag (cell ∷ values) = encode_prost tag cell ++ encode_cells (suc tag) values

  cells_len : ℕ → List (Cell X) → ℕ
  unfolding encoded_len_prost
  cells_len tag [] = 0
  cells_len tag (cell ∷ values) = encoded_len_prost tag cell + cells_len (suc tag) values

  unfoldable pub encode_raw : TableRow X → List ℕ
  unfolding encode_cells
  encode_raw row = encode_cells 1 row.values

  pub encoded_len : TableRow X → ℕ
  unfolding cells_len
  encoded_len row = cells_len 1 row.values
