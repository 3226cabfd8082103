-- ===== src/Destination/Columns/Values.antt =====
-- etl/src/clients/bigquery.rs and conversions/text.rs: the fields of columns, and the values that the decoder
-- makes for them.
use pg_replicate.Base.{Bool, true, false, Result, ok, err}
use pg_replicate.Conversions.Cell.{ArrayCell, Cell}
use pg_replicate.Conversions.TextFormat.{FromTextError}
use pg_replicate.Destination.Columns.{ColumnType, ColumnMode}

module _ {X : Type 0} where
  -- A single value that is encoded as the field's type. Dates and the like are encoded as strings, and an
  -- unsigned number is a varint as a signed one is.
  abbrev pub Carries : ColumnType → Cell X → Type 0
  Carries ColumnType.bool (Cell.bool b) = Unit
  Carries ColumnType.string (Cell.string s) = Unit
  Carries ColumnType.string (Cell.numeric n) = Unit
  Carries ColumnType.string (Cell.date t) = Unit
  Carries ColumnType.string (Cell.time t) = Unit
  Carries ColumnType.string (Cell.time_stamp t) = Unit
  Carries ColumnType.string (Cell.time_stamp_tz t) = Unit
  Carries ColumnType.string (Cell.uuid u) = Unit
  Carries ColumnType.string (Cell.json j) = Unit
  Carries ColumnType.int32 (Cell.i16 i) = Unit
  Carries ColumnType.int32 (Cell.i32 i) = Unit
  Carries ColumnType.int32 (Cell.u32 i) = Unit
  Carries ColumnType.int64 (Cell.i64 i) = Unit
  Carries ColumnType.float (Cell.f32 x) = Unit
  Carries ColumnType.double (Cell.f64 x) = Unit
  Carries ColumnType.bytes (Cell.bytes b) = Unit
  Carries typ cell = ⊥

  -- An array of such values.
  abbrev CarriesAll : ColumnType → ArrayCell X → Type 0
  CarriesAll ColumnType.bool (ArrayCell.bool vec) = Unit
  CarriesAll ColumnType.string (ArrayCell.string vec) = Unit
  CarriesAll ColumnType.string (ArrayCell.numeric vec) = Unit
  CarriesAll ColumnType.string (ArrayCell.date vec) = Unit
  CarriesAll ColumnType.string (ArrayCell.time vec) = Unit
  CarriesAll ColumnType.string (ArrayCell.time_stamp vec) = Unit
  CarriesAll ColumnType.string (ArrayCell.time_stamp_tz vec) = Unit
  CarriesAll ColumnType.string (ArrayCell.uuid vec) = Unit
  CarriesAll ColumnType.string (ArrayCell.json vec) = Unit
  CarriesAll ColumnType.int32 (ArrayCell.i16 vec) = Unit
  CarriesAll ColumnType.int32 (ArrayCell.i32 vec) = Unit
  CarriesAll ColumnType.int32 (ArrayCell.u32 vec) = Unit
  CarriesAll ColumnType.int64 (ArrayCell.i64 vec) = Unit
  CarriesAll ColumnType.float (ArrayCell.f32 vec) = Unit
  CarriesAll ColumnType.double (ArrayCell.f64 vec) = Unit
  CarriesAll ColumnType.bytes (ArrayCell.bytes vec) = Unit
  CarriesAll typ a = ⊥

  abbrev pub Repeats : ColumnType → Cell X → Type 0
  Repeats typ (Cell.array a) = CarriesAll typ a
  Repeats typ cell = ⊥

  -- The value that a field of this type and mode takes.
  abbrev pub Fits : ColumnType → ColumnMode → Cell X → Type 0
  Fits typ ColumnMode.repeated cell = Repeats typ cell
  Fits typ ColumnMode.nullable cell = Carries typ cell
  Fits typ ColumnMode.required cell = Carries typ cell

  abbrev Holds : ColumnType → Bool → Cell X → Type 0
  Holds typ true cell = Repeats typ cell
  Holds typ false cell = Carries typ cell

  -- What a result is, unless it is an error.
  abbrev pub WhenOk : (Cell X → Type 0) → Result FromTextError (Cell X) → Type 0
  WhenOk P (ok cell) = P cell
  WhenOk P (err e) = Unit
