-- ===== src/Destination/BigQuery/TypeNames.antt =====
-- etl/src/destination/bigquery.rs: the names under which the types of columns are stored in BigQuery, and
-- the types that are read back.
use pg_replicate.Base.{
  ℕ, ◌≡◌, refl, ◌++◌, Text, codes, text_eq, if◌then◌else◌, Bool-cases, ◌==◌, ==_iff, ◌∙◌, true,
  false, ap, sym, ◌⊎◌, inl, inr,
}
use pg_replicate.Schema.Types.{PgType}

-- `Type::TIMETZ` is one of the other types, with this oid.
abbrev pub timetz_oid : ℕ
timetz_oid = 1266

-- `type_name` is `Type::name`.
pub postgres_type_to_string : (PgType → Text) → PgType → Text
postgres_type_to_string type_name PgType.bool = codes "BOOL"
postgres_type_to_string type_name PgType.char = codes "CHAR"
postgres_type_to_string type_name PgType.int2 = codes "INT2"
postgres_type_to_string type_name PgType.int4 = codes "INT4"
postgres_type_to_string type_name PgType.int8 = codes "INT8"
postgres_type_to_string type_name PgType.float4 = codes "FLOAT4"
postgres_type_to_string type_name PgType.float8 = codes "FLOAT8"
postgres_type_to_string type_name PgType.text = codes "TEXT"
postgres_type_to_string type_name PgType.varchar = codes "VARCHAR"
postgres_type_to_string type_name PgType.timestamp = codes "TIMESTAMP"
postgres_type_to_string type_name PgType.timestamptz = codes "TIMESTAMPTZ"
postgres_type_to_string type_name PgType.date = codes "DATE"
postgres_type_to_string type_name PgType.time = codes "TIME"
postgres_type_to_string type_name PgType.bytea = codes "BYTEA"
postgres_type_to_string type_name PgType.uuid = codes "UUID"
postgres_type_to_string type_name PgType.json = codes "JSON"
postgres_type_to_string type_name PgType.jsonb = codes "JSONB"
postgres_type_to_string type_name (PgType.other oid) =
    if oid == timetz_oid
    then codes "TIMETZ"
    else codes "UNKNOWN(" ++ type_name (PgType.other oid) ++ codes ")"
postgres_type_to_string type_name t = codes "UNKNOWN(" ++ type_name t ++ codes ")"

-- The arms of the match on the name, in their order.
pub string_to_postgres_type : Text → PgType
string_to_postgres_type s =
    if text_eq s (codes "BOOL")
    then PgType.bool
    else if text_eq s (codes "CHAR")
    then PgType.char
    else if text_eq s (codes "INT2")
    then PgType.int2
    else if text_eq s (codes "INT4")
    then PgType.int4
    else if text_eq s (codes "INT8")
    then PgType.int8
    else if text_eq s (codes "FLOAT4")
    then PgType.float4
    else if text_eq s (codes "FLOAT8")
    then PgType.float8
    else if text_eq s (codes "TEXT")
    then PgType.text
    else if text_eq s (codes "VARCHAR")
    then PgType.varchar
    else if text_eq s (codes "TIMESTAMP")
    then PgType.timestamp
    else if text_eq s (codes "TIMESTAMPTZ")
    then PgType.timestamptz
    else if text_eq s (codes "DATE")
    then PgType.date
    else if text_eq s (codes "TIME")
    then PgType.time
    else if text_eq s (codes "TIMETZ")
    then PgType.other timetz_oid
    else if text_eq s (codes "BYTEA")
    then PgType.bytea
    else if text_eq s (codes "UUID")
    then PgType.uuid
    else if text_eq s (codes "JSON")
    then PgType.json
    else if text_eq s (codes "JSONB")
    then PgType.jsonb
    else PgType.text

true-ne : true ≡ false → ⊥
true-ne e = cc

-- The types that have a name of their own.
abbrev pub IsNamed : PgType → Type 0
IsNamed PgType.bool = Unit
IsNamed PgType.char = Unit
IsNamed PgType.int2 = Unit
IsNamed PgType.int4 = Unit
IsNamed PgType.int8 = Unit
IsNamed PgType.float4 = Unit
IsNamed PgType.float8 = Unit
IsNamed PgType.text = Unit
IsNamed PgType.varchar = Unit
IsNamed PgType.timestamp = Unit
IsNamed PgType.timestamptz = Unit
IsNamed PgType.date = Unit
IsNamed PgType.time = Unit
IsNamed PgType.bytea = Unit
IsNamed PgType.uuid = Unit
IsNamed PgType.json = Unit
IsNamed PgType.jsonb = Unit
IsNamed (PgType.other oid) = oid ≡ timetz_oid
IsNamed t = ⊥

-- A type that is stored by name and read back is itself if it has a name of its own, and `text` if it has
-- none: `numeric`, the arrays and all the others.
pub string_to_postgres_type-name :
    (type_name : PgType → Text) (t : PgType)
    → (IsNamed t × (string_to_postgres_type (postgres_type_to_string type_name t) ≡ t))
      ⊎ ((¬ IsNamed t)
          × (string_to_postgres_type (postgres_type_to_string type_name t) ≡ PgType.text))
unfolding string_to_postgres_type postgres_type_to_string text_eq
string_to_postgres_type-name type_name PgType.bool = inl (tt, refl)
string_to_postgres_type-name type_name PgType.char = inl (tt, refl)
string_to_postgres_type-name type_name PgType.int2 = inl (tt, refl)
string_to_postgres_type-name type_name PgType.int4 = inl (tt, refl)
string_to_postgres_type-name type_name PgType.int8 = inl (tt, refl)
string_to_postgres_type-name type_name PgType.float4 = inl (tt, refl)
string_to_postgres_type-name type_name PgType.float8 = inl (tt, refl)
string_to_postgres_type-name type_name PgType.text = inl (tt, refl)
string_to_postgres_type-name type_name PgType.varchar = inl (tt, refl)
string_to_postgres_type-name type_name PgType.timestamp = inl (tt, refl)
string_to_postgres_type-name type_name PgType.timestamptz = inl (tt, refl)
string_to_postgres_type-name type_name PgType.date = inl (tt, refl)
string_to_postgres_type-name type_name PgType.time = inl (tt, refl)
string_to_postgres_type-name type_name PgType.bytea = inl (tt, refl)
string_to_postgres_type-name type_name PgType.uuid = inl (tt, refl)
string_to_postgres_type-name type_name PgType.json = inl (tt, refl)
string_to_postgres_type-name type_name PgType.jsonb = inl (tt, refl)
string_to_postgres_type-name type_name (PgType.other oid) = elim (Bool-cases (oid == timetz_oid)) [
  | inl e ↦
      inl ((==_iff oid timetz_oid).0 e, rw e (ap PgType.other (sym ((==_iff oid timetz_oid).0 e))))
  | inr e ↦ inr (λ is. true-ne (sym ((==_iff oid timetz_oid).1 is) ∙ e), rw e refl)
]
string_to_postgres_type-name type_name t = inr (λ h. h, refl)
