-- ===== src/Schema.antt =====
-- postgres/src/schema.rs: the schema of a table and the comparison that ignores `nullable`.
pub mod Types
pub mod Cache
pub mod Compare
use pg_replicate.Base.{
  ℕ, Bool, true, false, ◌&&◌, ◌||◌, List, [], ◌∷◌, ◌++◌, Text, text_eq, ◌==◌, length, codes,
}
use pg_replicate.Schema.Types.{PgType, type_eq}

pub record TableName : Type 0 where
  pub schema : Text
  pub name : Text

-- `modifier` is an `i32`; only its equality is used, so its 32 bits stand for it.
pub record ColumnSchema : Type 0 where
  pub name : Text
  pub typ : PgType
  pub modifier : ℕ
  pub nullable : Bool
  pub primary : Bool

pub record TableSchema : Type 0 where
  pub id : ℕ
  pub name : TableName
  pub column_schemas : List ColumnSchema

-- `format!("{}_{}", self.schema, self.name)`
unfoldable pub as_bigquery_table_id : TableName → Text
as_bigquery_table_id t = t.schema ++ codes "_" ++ t.name

-- The derived equality of `TableName`.
unfoldable pub name_eq : TableName → TableName → Bool
name_eq a b = text_eq a.schema b.schema && text_eq a.name b.name

unfoldable pub bool_eq : Bool → Bool → Bool
bool_eq true true = true
bool_eq false false = true
bool_eq _ _ = false

-- `ColumnSchema::partial_eq`
unfoldable pub column_partial_eq : ColumnSchema → ColumnSchema → Bool
unfolding bool_eq
column_partial_eq a b =
    text_eq a.name b.name
    && (type_eq a.typ b.typ && ((a.modifier == b.modifier) && bool_eq a.primary b.primary))

-- `zip` stops at the end of the shorter list.
unfoldable pub zip_all_eq : List ColumnSchema → List ColumnSchema → Bool
zip_all_eq [] bs = true
zip_all_eq (a ∷ as') [] = true
zip_all_eq (a ∷ as') (b ∷ bs) = column_partial_eq a b && zip_all_eq as' bs

-- `TableSchema::partial_eq`
unfoldable pub partial_eq : TableSchema → TableSchema → Bool
unfolding name_eq zip_all_eq
partial_eq a b =
    (a.id == b.id)
    && (name_eq a.name b.name
        && ((length a.column_schemas == length b.column_schemas)
            && zip_all_eq a.column_schemas b.column_schemas))

any_primary : List ColumnSchema → Bool
any_primary [] = false
any_primary (c ∷ cs) = c.primary || any_primary cs

unfoldable pub has_primary_keys : TableSchema → Bool
unfolding any_primary
has_primary_keys t = any_primary t.column_schemas
