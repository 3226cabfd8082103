-- ===== src/Destination/Columns.antt =====
-- etl/src/clients/bigquery.rs: the columns of a table of BigQuery, in SQL and for the Storage Write API.
pub mod Fields
pub mod Values
use pg_replicate.Base.{
  ℕ, suc, ◌+◌, ◌≡◌, refl, ap, ◌∙◌, Bool, true, false, not, ◌&&◌, Bool-cases, inl, inr, List, [],
  ◌∷◌, ◌++◌, map, length, arith, Text, codes, if◌then◌else◌, if-elim,
}
use pg_replicate.Schema.Types.{PgType}
use pg_replicate.Schema.{ColumnSchema}

-- Which types are arrays.
pub is_array_type : PgType → Bool
is_array_type PgType.bool_array = true
is_array_type PgType.char_array = true
is_array_type PgType.bpchar_array = true
is_array_type PgType.varchar_array = true
is_array_type PgType.name_array = true
is_array_type PgType.text_array = true
is_array_type PgType.int2_array = true
is_array_type PgType.int4_array = true
is_array_type PgType.int8_array = true
is_array_type PgType.float4_array = true
is_array_type PgType.float8_array = true
is_array_type PgType.numeric_array = true
is_array_type PgType.date_array = true
is_array_type PgType.time_array = true
is_array_type PgType.timestamp_array = true
is_array_type PgType.timestamptz_array = true
is_array_type PgType.uuid_array = true
is_array_type PgType.json_array = true
is_array_type PgType.jsonb_array = true
is_array_type PgType.oid_array = true
is_array_type PgType.bytea_array = true
is_array_type typ = false

element_type : PgType → Text
element_type PgType.bool_array = codes "bool"
element_type PgType.char_array = codes "string"
element_type PgType.bpchar_array = codes "string"
element_type PgType.varchar_array = codes "string"
element_type PgType.name_array = codes "string"
element_type PgType.text_array = codes "string"
element_type PgType.int2_array = codes "int64"
element_type PgType.int4_array = codes "int64"
element_type PgType.int8_array = codes "int64"
element_type PgType.float4_array = codes "float64"
element_type PgType.float8_array = codes "float64"
element_type PgType.numeric_array = codes "bignumeric"
element_type PgType.date_array = codes "date"
element_type PgType.time_array = codes "time"
element_type PgType.timestamp_array = codes "timestamp"
element_type PgType.timestamptz_array = codes "timestamp"
element_type PgType.uuid_array = codes "string"
element_type PgType.json_array = codes "json"
element_type PgType.jsonb_array = codes "json"
element_type PgType.oid_array = codes "int64"
element_type PgType.bytea_array = codes "bytes"
element_type typ = codes "string"

scalar_type : PgType → Text
scalar_type PgType.bool = codes "bool"
scalar_type PgType.char = codes "string"
scalar_type PgType.bpchar = codes "string"
scalar_type PgType.varchar = codes "string"
scalar_type PgType.name = codes "string"
scalar_type PgType.text = codes "string"
scalar_type PgType.int2 = codes "int64"
scalar_type PgType.int4 = codes "int64"
scalar_type PgType.int8 = codes "int64"
scalar_type PgType.float4 = codes "float64"
scalar_type PgType.float8 = codes "float64"
scalar_type PgType.numeric = codes "bignumeric"
scalar_type PgType.date = codes "date"
scalar_type PgType.time = codes "time"
scalar_type PgType.timestamp = codes "timestamp"
scalar_type PgType.timestamptz = codes "timestamp"
scalar_type PgType.uuid = codes "string"
scalar_type PgType.json = codes "json"
scalar_type PgType.jsonb = codes "json"
scalar_type PgType.oid = codes "int64"
scalar_type PgType.bytea = codes "bytes"
scalar_type typ = codes "string"

pub postgres_to_bigquery_type : PgType → Text
unfolding is_array_type element_type scalar_type
postgres_to_bigquery_type typ =
    if is_array_type typ then codes "array<" ++ element_type typ ++ codes ">" else scalar_type typ

column_spec : ColumnSchema → Text
unfolding postgres_to_bigquery_type is_array_type
column_spec s =
    (codes "`" ++ s.name ++ codes "` " ++ postgres_to_bigquery_type s.typ)
    ++ (if not s.nullable && not (is_array_type s.typ) then codes " not null" else [])

-- `join(",")`
join : List Text → Text
join [] = []
join (t ∷ []) = t
join (t ∷ u ∷ ts) = t ++ codes "," ++ join (u ∷ ts)

identity_columns : List ColumnSchema → List Text
identity_columns [] = []
identity_columns (s ∷ rest) =
    if s.primary
    then (codes "`" ++ s.name ++ codes "`") ∷ identity_columns rest
    else identity_columns rest

key_clause : List Text → Text
unfolding join
key_clause [] = []
key_clause (c ∷ cs) = codes ", primary key (" ++ join (c ∷ cs) ++ codes ") not enforced"

add_primary_key_clause : List ColumnSchema → Text
unfolding identity_columns key_clause
add_primary_key_clause column_schemas = key_clause (identity_columns column_schemas)

create_columns_spec : List ColumnSchema → Text
unfolding column_spec join add_primary_key_clause
create_columns_spec column_schemas =
    codes "("
    ++ (join (map column_spec column_schemas) ++ add_primary_key_clause column_schemas)
    ++ codes ")"

-- Of the crate gcp_bigquery_client.
pub data ColumnType : Type 0 where
  bool string int32 int64 float double bytes : ColumnType

pub data ColumnMode : Type 0 where
  nullable required repeated : ColumnMode

pub record FieldDescriptor : Type 0 where
  pub number : ℕ
  pub name : Text
  pub typ : ColumnType
  pub mode : ColumnMode

pub column_type : PgType → ColumnType
column_type PgType.bool = ColumnType.bool
column_type PgType.int2 = ColumnType.int32
column_type PgType.int4 = ColumnType.int32
column_type PgType.int8 = ColumnType.int64
column_type PgType.float4 = ColumnType.float
column_type PgType.float8 = ColumnType.double
column_type PgType.oid = ColumnType.int32
column_type PgType.bytea = ColumnType.bytes
column_type PgType.bool_array = ColumnType.bool
column_type PgType.int2_array = ColumnType.int32
column_type PgType.int4_array = ColumnType.int32
column_type PgType.int8_array = ColumnType.int64
column_type PgType.float4_array = ColumnType.float
column_type PgType.float8_array = ColumnType.double
column_type PgType.oid_array = ColumnType.int32
column_type PgType.bytea_array = ColumnType.bytes
column_type typ = ColumnType.string

pub column_mode : ColumnSchema → ColumnMode
unfolding is_array_type
column_mode s =
    if is_array_type s.typ
    then ColumnMode.repeated
    else if s.nullable
    then ColumnMode.nullable
    else ColumnMode.required

field : ℕ → ColumnSchema → FieldDescriptor
unfolding column_type column_mode
field number s = record {
  number = number;
  name = s.name;
  typ = column_type s.typ;
  mode = column_mode s;
}

special_column : ℕ → FieldDescriptor
special_column number = record {
  number = number;
  name = codes "_CHANGE_TYPE";
  typ = ColumnType.string;
  mode = ColumnMode.required;
}

field_descriptors : ℕ → List ColumnSchema → List FieldDescriptor
unfolding field special_column
field_descriptors number [] = special_column number ∷ []
field_descriptors number (s ∷ rest) = field number s ∷ field_descriptors (suc number) rest

pub column_schemas_to_table_descriptor : List ColumnSchema → List FieldDescriptor
unfolding field_descriptors
column_schemas_to_table_descriptor column_schemas = field_descriptors 1 column_schemas
