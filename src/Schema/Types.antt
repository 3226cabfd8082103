-- ===== src/Schema/Types.antt =====
-- The Postgres types that the program tells apart (constants of `tokio_postgres::types::Type`); all
-- others are `other`, with their oid.
use mathlib.Core.Bool.{decide, decide_iff}
use native.Mathlib.Decide.{ℕ_discrete}
use pg_replicate.Base.{ℕ, Bool, true, ◌≡◌, ◌↔◌}

pub data PgType : Type 0 where
  bool bool_array char bpchar varchar name text : PgType
  char_array bpchar_array varchar_array name_array text_array : PgType
  int2 int2_array int4 int4_array int8 int8_array : PgType
  float4 float4_array float8 float8_array numeric numeric_array bytea bytea_array : PgType
  date date_array time time_array timestamp timestamp_array timestamptz timestamptz_array : PgType
  uuid uuid_array json jsonb json_array jsonb_array oid oid_array : PgType
  other : ℕ → PgType

PgType-discrete : Discrete PgType
PgType-discrete = hlevel ℕ_discrete

unfoldable pub type_eq : PgType → PgType → Bool
unfolding PgType-discrete
type_eq a b = decide (PgType-discrete a b)

pub type_eq_iff : (a b : PgType) → (type_eq a b ≡ true) ↔ (a ≡ b)
unfolding type_eq
type_eq_iff a b = decide_iff (PgType-discrete a b)
