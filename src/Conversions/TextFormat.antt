-- ===== src/Conversions/TextFormat.antt =====
-- etl/src/conversions/text.rs: values from the text format of Postgres, by type. The types that the
-- program does not name are kept as text (the default feature `unknown_types_to_bytes`).
use pg_replicate.Base.{
  ℕ, Option, none, some, List, [], Result, ok, err, and_then, map_err, ok_or, codes, false, text_eq,
  ltb, if◌then◌else◌, ◌∷◌, ◌++◌, ◌+◌, ◌/◌, ◌%◌,
}
use pg_replicate.Base.{Text}
use pg_replicate.Base.Int.{pos}
use pg_replicate.Schema.Types.{PgType}
use pg_replicate.Conversions.Cell.{Cell, ArrayCell, PgNumeric, Externals}
use pg_replicate.Conversions.Numbers.{ParseBoolError, parse_bool, parse_u32, parse_int}
use pg_replicate.Conversions.Hex.{ByteaHexParseError, from_bytea_hex}
use pg_replicate.Conversions.ArrayText.{ArrayParseError, parse_array}

pub data FromTextError : Type 0 where
  invalid_bool : ParseBoolError → FromTextError
  invalid_int invalid_float invalid_numeric : FromTextError
  invalid_bytea : ByteaHexParseError → FromTextError
  invalid_uuid invalid_json invalid_timestamp : FromTextError
  invalid_array : ArrayParseError → FromTextError

-- The bytes of a text.
pub utf8 : Text → List ℕ
utf8 [] = []
utf8 (c ∷ s) =
    (if ltb c 0x80
      then c ∷ []
      else if ltb c 0x800
      then (0xc0 + c / 64) ∷ (0x80 + c % 64) ∷ []
      else if ltb c 0x10000
      then (0xe0 + c / 4096) ∷ (0x80 + c / 64 % 64) ∷ (0x80 + c % 64) ∷ []
      else (0xf0 + c / 262144)
        ∷ (0x80 + c / 4096 % 64)
        ∷ (0x80 + c / 64 % 64)
        ∷ (0x80 + c % 64)
        ∷ [])
    ++ utf8 s

module _ {X : Type 0} (ext : Externals X) where
  open ext use {
    to_lowercase, parse_f32, parse_f64, parse_big_decimal, parse_date, parse_time, parse_date_time,
    parse_date_time_tz, parse_uuid, parse_json, default_float, default_big_decimal, min_date,
    min_time, min_date_time, min_date_time_tz, default_uuid, default_json,
  }

  or_infinite : Text → Option X → Result FromTextError (PgNumeric X)
  or_infinite s (some n) = ok (PgNumeric.value n)
  or_infinite s none =
      if text_eq (to_lowercase s) (codes "infinity")
      then ok PgNumeric.positive_inf
      else if text_eq (to_lowercase s) (codes "-infinity")
      then ok PgNumeric.negative_inf
      else if text_eq (to_lowercase s) (codes "nan")
      then ok PgNumeric.nan
      else err invalid_numeric

  -- `PgNumeric::from_str` of numeric.rs.
  pub parse_numeric : Text → Result FromTextError (PgNumeric X)
  unfolding or_infinite
  parse_numeric s = or_infinite s (parse_big_decimal s)

  tz_or_colon : Text → Option X → Result FromTextError X
  tz_or_colon s (some t) = ok t
  tz_or_colon s none =
      ok_or (parse_date_time_tz (codes "%Y-%m-%d %H:%M:%S%.f%:z") s) invalid_timestamp

  pub parse_timestamptz : Text → Result FromTextError X
  unfolding tz_or_colon
  parse_timestamptz s = tz_or_colon s (parse_date_time_tz (codes "%Y-%m-%d %H:%M:%S%.f%#z") s)

  pub parse_bytea : Text → Result FromTextError (List ℕ)
  unfolding utf8
  parse_bytea s = map_err invalid_bytea (from_bytea_hex (utf8 s))

  -- One element parser, and the constructor of the array.
  unfoldable pub array_of :
      {T : Type 0}
      → (List (Option T) → ArrayCell X)
      → (Text → Result FromTextError T)
      → Text
      → Result FromTextError (Cell X)
  array_of m parse s =
      and_then (parse_array to_lowercase (λ e. and_then (parse e) λ v. ok (some v)) invalid_array s)
        λ res. ok (Cell.array (m res))

  -- The two parsers are tried on the whole array, one after the other.
  unfoldable pub timestamptz_array_or :
      Text → Result FromTextError (Cell X) → Result FromTextError (Cell X)
  timestamptz_array_or s (ok v) = ok v
  timestamptz_array_or s (err e) =
      array_of ArrayCell.time_stamp_tz
        (λ t. ok_or (parse_date_time_tz (codes "%Y-%m-%d %H:%M:%S%.f%:z") t) invalid_timestamp) s

  unfoldable pub default_value : PgType → Cell X
  default_value PgType.bool = Cell.bool false
  default_value PgType.bool_array = Cell.array (ArrayCell.bool [])
  default_value PgType.char = Cell.string []
  default_value PgType.bpchar = Cell.string []
  default_value PgType.varchar = Cell.string []
  default_value PgType.name = Cell.string []
  default_value PgType.text = Cell.string []
  default_value PgType.char_array = Cell.array (ArrayCell.string [])
  default_value PgType.bpchar_array = Cell.array (ArrayCell.string [])
  default_value PgType.varchar_array = Cell.array (ArrayCell.string [])
  default_value PgType.name_array = Cell.array (ArrayCell.string [])
  default_value PgType.text_array = Cell.array (ArrayCell.string [])
  default_value PgType.int2 = Cell.i16 (pos 0)
  default_value PgType.int2_array = Cell.array (ArrayCell.i16 [])
  default_value PgType.int4 = Cell.i32 (pos 0)
  default_value PgType.int4_array = Cell.array (ArrayCell.i32 [])
  default_value PgType.int8 = Cell.i64 (pos 0)
  default_value PgType.int8_array = Cell.array (ArrayCell.i64 [])
  default_value PgType.float4 = Cell.f32 default_float
  default_value PgType.float4_array = Cell.array (ArrayCell.f32 [])
  default_value PgType.float8 = Cell.f64 default_float
  default_value PgType.float8_array = Cell.array (ArrayCell.f64 [])
  default_value PgType.numeric = Cell.numeric (PgNumeric.value default_big_decimal)
  default_value PgType.numeric_array = Cell.array (ArrayCell.numeric [])
  default_value PgType.bytea = Cell.bytes []
  default_value PgType.bytea_array = Cell.array (ArrayCell.bytes [])
  default_value PgType.date = Cell.date min_date
  default_value PgType.date_array = Cell.array (ArrayCell.date [])
  default_value PgType.time = Cell.time min_time
  default_value PgType.time_array = Cell.array (ArrayCell.time [])
  default_value PgType.timestamp = Cell.time_stamp min_date_time
  default_value PgType.timestamp_array = Cell.array (ArrayCell.time_stamp [])
  default_value PgType.timestamptz = Cell.time_stamp_tz min_date_time_tz
  default_value PgType.timestamptz_array = Cell.array (ArrayCell.time_stamp_tz [])
  default_value PgType.uuid = Cell.uuid default_uuid
  default_value PgType.uuid_array = Cell.array (ArrayCell.uuid [])
  default_value PgType.json = Cell.json default_json
  default_value PgType.jsonb = Cell.json default_json
  default_value PgType.json_array = Cell.array (ArrayCell.json [])
  default_value PgType.jsonb_array = Cell.array (ArrayCell.json [])
  default_value PgType.oid = Cell.u32 0
  default_value PgType.oid_array = Cell.array (ArrayCell.u32 [])
  default_value (PgType.other o) = Cell.string []

  unfoldable pub try_from_str : PgType → Text → Result FromTextError (Cell X)
  unfolding parse_numeric parse_timestamptz parse_bytea array_of timestamptz_array_or
  try_from_str PgType.bool s = and_then (map_err invalid_bool (parse_bool s)) λ v. ok (Cell.bool v)
  try_from_str PgType.bool_array s =
      array_of ArrayCell.bool (λ t. map_err invalid_bool (parse_bool t)) s
  try_from_str PgType.char s = ok (Cell.string s)
  try_from_str PgType.bpchar s = ok (Cell.string s)
  try_from_str PgType.varchar s = ok (Cell.string s)
  try_from_str PgType.name s = ok (Cell.string s)
  try_from_str PgType.text s = ok (Cell.string s)
  try_from_str PgType.char_array s = array_of ArrayCell.string (λ t. ok t) s
  try_from_str PgType.bpchar_array s = array_of ArrayCell.string (λ t. ok t) s
  try_from_str PgType.varchar_array s = array_of ArrayCell.string (λ t. ok t) s
  try_from_str PgType.name_array s = array_of ArrayCell.string (λ t. ok t) s
  try_from_str PgType.text_array s = array_of ArrayCell.string (λ t. ok t) s
  try_from_str PgType.int2 s = and_then (ok_or (parse_int 15 s) invalid_int) λ v. ok (Cell.i16 v)
  try_from_str PgType.int2_array s =
      array_of ArrayCell.i16 (λ t. ok_or (parse_int 15 t) invalid_int) s
  try_from_str PgType.int4 s = and_then (ok_or (parse_int 31 s) invalid_int) λ v. ok (Cell.i32 v)
  try_from_str PgType.int4_array s =
      array_of ArrayCell.i32 (λ t. ok_or (parse_int 31 t) invalid_int) s
  try_from_str PgType.int8 s = and_then (ok_or (parse_int 63 s) invalid_int) λ v. ok (Cell.i64 v)
  try_from_str PgType.int8_array s =
      array_of ArrayCell.i64 (λ t. ok_or (parse_int 63 t) invalid_int) s
  try_from_str PgType.float4 s = and_then (ok_or (parse_f32 s) invalid_float) λ v. ok (Cell.f32 v)
  try_from_str PgType.float4_array s =
      array_of ArrayCell.f32 (λ t. ok_or (parse_f32 t) invalid_float) s
  try_from_str PgType.float8 s = and_then (ok_or (parse_f64 s) invalid_float) λ v. ok (Cell.f64 v)
  try_from_str PgType.float8_array s =
      array_of ArrayCell.f64 (λ t. ok_or (parse_f64 t) invalid_float) s
  try_from_str PgType.numeric s = and_then (parse_numeric s) λ v. ok (Cell.numeric v)
  try_from_str PgType.numeric_array s = array_of ArrayCell.numeric (λ t. parse_numeric t) s
  try_from_str PgType.bytea s = and_then (parse_bytea s) λ v. ok (Cell.bytes v)
  try_from_str PgType.bytea_array s = array_of ArrayCell.bytes (λ t. parse_bytea t) s
  try_from_str PgType.date s =
      and_then (ok_or (parse_date (codes "%Y-%m-%d") s) invalid_timestamp) λ v. ok (Cell.date v)
  try_from_str PgType.date_array s =
      array_of ArrayCell.date (λ t. ok_or (parse_date (codes "%Y-%m-%d") t) invalid_timestamp) s
  try_from_str PgType.time s =
      and_then (ok_or (parse_time (codes "%H:%M:%S%.f") s) invalid_timestamp) λ v. ok (Cell.time v)
  try_from_str PgType.time_array s =
      array_of ArrayCell.time (λ t. ok_or (parse_time (codes "%H:%M:%S%.f") t) invalid_timestamp) s
  try_from_str PgType.timestamp s =
      and_then (ok_or (parse_date_time (codes "%Y-%m-%d %H:%M:%S%.f") s) invalid_timestamp)
        λ v. ok (Cell.time_stamp v)
  try_from_str PgType.timestamp_array s =
      array_of ArrayCell.time_stamp
        (λ t. ok_or (parse_date_time (codes "%Y-%m-%d %H:%M:%S%.f") t) invalid_timestamp) s
  try_from_str PgType.timestamptz s = and_then (parse_timestamptz s) λ v. ok (Cell.time_stamp_tz v)
  try_from_str PgType.timestamptz_array s = timestamptz_array_or s (
      array_of ArrayCell.time_stamp_tz
        (λ t. ok_or (parse_date_time_tz (codes "%Y-%m-%d %H:%M:%S%.f%#z") t) invalid_timestamp) s)
  try_from_str PgType.uuid s = and_then (ok_or (parse_uuid s) invalid_uuid) λ v. ok (Cell.uuid v)
  try_from_str PgType.uuid_array s =
      array_of ArrayCell.uuid (λ t. ok_or (parse_uuid t) invalid_uuid) s
  try_from_str PgType.json s = and_then (ok_or (parse_json s) invalid_json) λ v. ok (Cell.json v)
  try_from_str PgType.jsonb s = and_then (ok_or (parse_json s) invalid_json) λ v. ok (Cell.json v)
  try_from_str PgType.json_array s =
      array_of ArrayCell.json (λ t. ok_or (parse_json t) invalid_json) s
  try_from_str PgType.jsonb_array s =
      array_of ArrayCell.json (λ t. ok_or (parse_json t) invalid_json) s
  try_from_str PgType.oid s = and_then (ok_or (parse_u32 s) invalid_int) λ v. ok (Cell.u32 v)
  try_from_str PgType.oid_array s = array_of ArrayCell.u32 (λ t. ok_or (parse_u32 t) invalid_int) s
  try_from_str (PgType.other o) s = ok (Cell.string s)
