-- ===== src/Conversions/Cell.antt =====
-- etl/src/conversions/mod.rs, numeric.rs, bool.rs: the values of a row. Values of the libraries
-- (floats, big decimals, dates, times, uuids, json) are opaque: `X` is the type of all of them, and
-- `Externals` what the program calls of those libraries.
use pg_replicate.Base.{ℕ, Bool, Option, List, Text}
use pg_replicate.Base.Int.{ℤ}
use pg_replicate.Schema.Types.{PgType}

pub data PgNumeric (X : Type 0) : Type 0 where
  nan positive_inf negative_inf : PgNumeric X
  value : X → PgNumeric X

pub data ArrayCell (X : Type 0) : Type 0 where
  null : ArrayCell X
  bool : List (Option Bool) → ArrayCell X
  string : List (Option Text) → ArrayCell X
  i16 i32 i64 : List (Option ℤ) → ArrayCell X
  u32 : List (Option ℕ) → ArrayCell X
  f32 f64 : List (Option X) → ArrayCell X
  numeric : List (Option (PgNumeric X)) → ArrayCell X
  date time time_stamp time_stamp_tz uuid json : List (Option X) → ArrayCell X
  bytes : List (Option (List ℕ)) → ArrayCell X

pub data Cell (X : Type 0) : Type 0 where
  null : PgType → Cell X
  bool : Bool → Cell X
  string : Text → Cell X
  i16 i32 i64 : ℤ → Cell X
  u32 : ℕ → Cell X
  f32 f64 : X → Cell X
  numeric : PgNumeric X → Cell X
  date time time_stamp time_stamp_tz uuid json : X → Cell X
  bytes : List ℕ → Cell X
  array : ArrayCell X → Cell X

pub record TableRow (X : Type 0) : Type 0 where
  pub values : List (Cell X)

-- What the program calls of the libraries. A parser returns `none` for its error.
pub record Externals (X : Type 0) : Type 0 where
  -- `Type::from_oid`
  pub from_oid : ℕ → Option PgType
  pub from_utf8 : List ℕ → Option Text
  pub to_lowercase : Text → Text
  pub parse_f32 : Text → Option X
  pub parse_f64 : Text → Option X
  pub parse_big_decimal : Text → Option X
  -- `NaiveDate::parse_from_str`, and so on, with the format in the middle.
  pub parse_date : Text → Text → Option X
  pub parse_time : Text → Text → Option X
  pub parse_date_time : Text → Text → Option X
  -- `DateTime::<FixedOffset>::parse_from_str`, converted to UTC.
  pub parse_date_time_tz : Text → Text → Option X
  pub parse_uuid : Text → Option X
  pub parse_json : Text → Option X
  pub default_float : X
  pub default_big_decimal : X
  pub min_date : X
  pub min_time : X
  pub min_date_time : X
  pub min_date_time_tz : X
  pub default_uuid : X
  pub default_json : X
