-- ===== src/Schema/Cache.antt =====
-- etl/src/schema/cache.rs: the schemas of the tables, by table id.
use pg_replicate.Base.{ℕ, Option, List, [], ◌∷◌}
use pg_replicate.Base.Assoc.{Map}
use pg_replicate.Base.Assoc
use pg_replicate.Schema.{TableSchema}

pub record SchemaCache : Type 0 where
  pub table_schemas : Map TableSchema

unfoldable pub new : SchemaCache
new = record { table_schemas = [] }

unfoldable pub add_table_schema : SchemaCache → TableSchema → SchemaCache
add_table_schema c table_schema = record c {
  table_schemas = Assoc.insert c.table_schemas table_schema.id table_schema;
}

add_each : Map TableSchema → List TableSchema → Map TableSchema
add_each m [] = m
add_each m (s ∷ rest) = add_each (Assoc.insert m s.id s) rest

unfoldable pub add_table_schemas : SchemaCache → List TableSchema → SchemaCache
unfolding add_each
add_table_schemas c table_schemas = record c {
  table_schemas = add_each c.table_schemas table_schemas;
}

-- `get_table_schema` and `get_table_schema_ref`.
unfoldable pub get_table_schema : SchemaCache → ℕ → Option TableSchema
get_table_schema c table_id = Assoc.get c.table_schemas table_id
