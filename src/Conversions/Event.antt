-- ===== src/Conversions/Event.antt =====
-- etl/src/conversions/event.rs: events of the program, converted from the messages of logical
-- replication.
pub mod Rows
use pg_replicate.Base.{
  ℕ, suc, ◌+◌, Bool, true, false, Option, none, some, List, [], ◌∷◌, Result, ok, err, and_then,
  ok_or, map_err, ◌==◌, get_elem?,
}
use pg_replicate.Base.{Text}
use pg_replicate.Base.Int.{ℤ}
use pg_replicate.Schema.Types.{PgType}
use pg_replicate.Schema.{ColumnSchema, TableSchema}
use pg_replicate.Schema.Cache.{SchemaCache, get_table_schema}
use pg_replicate.Conversions.Protocol.{
  TupleData, Column, RelationBody, InsertBody, UpdateBody, DeleteBody, LogicalReplicationMessage,
}
use pg_replicate.Conversions.Cell.{Cell, TableRow, Externals}
use pg_replicate.Conversions.TextFormat.{FromTextError, default_value, try_from_str}

pub record BeginEvent : Type 0 where
  pub final_lsn : ℕ
  pub timestamp : ℤ
  pub xid : ℕ

pub record CommitEvent : Type 0 where
  pub flags : ℤ
  pub commit_lsn : ℕ
  pub end_lsn : ℕ
  pub timestamp : ℤ

pub record RelationEvent : Type 0 where
  pub table_schema : TableSchema

pub record InsertEvent (X : Type 0) : Type 0 where
  pub table_id : ℕ
  pub table_row : TableRow X

pub record UpdateEvent (X : Type 0) : Type 0 where
  pub table_id : ℕ
  pub table_row : TableRow X
  pub old_table_row : Option (Bool × TableRow X)

pub record DeleteEvent (X : Type 0) : Type 0 where
  pub table_id : ℕ
  pub old_table_row : Option (Bool × TableRow X)

pub record TruncateEvent : Type 0 where
  pub options : ℤ
  pub rel_ids : List ℕ

pub data Event (X : Type 0) : Type 0 where
  begin : BeginEvent → Event X
  commit : CommitEvent → Event X
  insert : InsertEvent X → Event X
  update : UpdateEvent X → Event X
  delete : DeleteEvent X → Event X
  relation : RelationEvent → Event X
  truncate : TruncateEvent → Event X
  unsupported : Event X

pub data EventType : Type 0 where
  begin commit insert update delete relation truncate unsupported : EventType

unfoldable pub event_type : {X : Type 0} → Event X → EventType
event_type (Event.begin e) = EventType.begin
event_type (Event.commit e) = EventType.commit
event_type (Event.insert e) = EventType.insert
event_type (Event.update e) = EventType.update
event_type (Event.delete e) = EventType.delete
event_type (Event.relation e) = EventType.relation
event_type (Event.truncate e) = EventType.truncate
event_type Event.unsupported = EventType.unsupported

pub data EventConversionError : Type 0 where
  unknown_replication_message binary_format_not_supported : EventConversionError
  tuple_data_not_found : Text → ℕ → EventConversionError
  missing_schema : ℕ → EventConversionError
  from_bytes : FromTextError → EventConversionError
  invalid_str io : EventConversionError

module _ {X : Type 0} (ext : Externals X) where
  -- postgres/src/types.rs
  pub convert_type_oid_to_type : ℕ → PgType
  convert_type_oid_to_type oid = elim (ext.from_oid oid) [ none ↦ PgType.other oid | some t ↦ t ]

  pub build_column_schema : Column → Result EventConversionError ColumnSchema
  unfolding convert_type_oid_to_type
  build_column_schema column = and_then (ok_or column.name io) λ name. ok (record {
    name = name;
    typ = convert_type_oid_to_type column.type_id;
    modifier = column.type_modifier;
    nullable = false;
    primary = column.flags == 1;
  })

  pub build_columns : List Column → Result EventConversionError (List ColumnSchema)
  unfolding build_column_schema
  build_columns [] = ok []
  build_columns (c ∷ cs) =
      and_then (build_column_schema c)
        λ column. and_then (build_columns cs) λ columns. ok (column ∷ columns)

  -- `RelationEvent::from_protocol`
  pub relation_from_protocol : RelationBody → Result EventConversionError RelationEvent
  unfolding build_columns
  relation_from_protocol body = and_then (ok_or body.namespace io) λ schema.
      and_then (ok_or body.name io) λ name. and_then (build_columns body.columns) λ columns.
        ok (record {
          table_schema = record {
            id = body.rel_id;
            name = record { schema = schema; name = name };
            column_schemas = columns;
          };
        })

  unfoldable pub convert_cell : PgType → TupleData → Result EventConversionError (Cell X)
  convert_cell typ TupleData.null = ok (Cell.null typ)
  convert_cell typ TupleData.unchanged_toast = ok (default_value ext typ)
  convert_cell typ (TupleData.binary bytes) = err binary_format_not_supported
  convert_cell typ (TupleData.text bytes) =
      and_then (ok_or (ext.from_utf8 bytes) invalid_str)
        λ s. map_err from_bytes (try_from_str ext typ s)

  unfoldable pub next_cell :
      Text → ℕ → PgType → Option TupleData → Result EventConversionError (Cell X)
  unfolding convert_cell
  next_cell name i typ none = err (tuple_data_not_found name i)
  next_cell name i typ (some tuple_data) = convert_cell typ tuple_data

  -- The loop over the columns, from index `i`.
  unfoldable pub convert_columns :
      ℕ → List ColumnSchema → List TupleData → Result EventConversionError (List (Cell X))
  unfolding next_cell
  convert_columns i [] tuple_data = ok []
  convert_columns i (column ∷ columns) tuple_data =
      and_then (next_cell column.name i column.typ (get_elem? tuple_data i))
        λ cell. and_then (convert_columns (suc i) columns tuple_data) λ cells. ok (cell ∷ cells)

  unfoldable pub convert_tuple_to_row :
      List ColumnSchema → List TupleData → Result EventConversionError (TableRow X)
  unfolding convert_columns
  convert_tuple_to_row columns tuple_data =
      and_then (convert_columns 0 columns tuple_data) λ values. ok (record { values = values })

  -- The old tuple if there is one, and else the key tuple; the flag tells the key apart.
  pub old_row :
      List ColumnSchema
      → Option (List TupleData)
      → Option (List TupleData)
      → Result EventConversionError (Option (Bool × TableRow X))
  old_row columns (some identity) key =
      and_then (convert_tuple_to_row columns identity) λ row. ok (some (false, row))
  old_row columns none (some identity) =
      and_then (convert_tuple_to_row columns identity) λ row. ok (some (true, row))
  old_row columns none none = ok none

  pub convert_insert_to_event : SchemaCache → InsertBody → Result EventConversionError (Event X)
  convert_insert_to_event schema_cache body =
      and_then (ok_or (get_table_schema schema_cache body.rel_id) (missing_schema body.rel_id))
        λ schema.
          and_then (convert_tuple_to_row schema.column_schemas body.tuple)
            λ row. ok (Event.insert (record { table_id = body.rel_id; table_row = row }))

  pub convert_update_to_event : SchemaCache → UpdateBody → Result EventConversionError (Event X)
  unfolding old_row
  convert_update_to_event schema_cache body =
      and_then (ok_or (get_table_schema schema_cache body.rel_id) (missing_schema body.rel_id))
        λ schema. and_then (convert_tuple_to_row schema.column_schemas body.new_tuple) λ row.
          and_then (old_row schema.column_schemas body.old_tuple body.key_tuple) λ old.
            ok (
              Event.update
                (record { table_id = body.rel_id; table_row = row; old_table_row = old }))

  pub convert_delete_to_event : SchemaCache → DeleteBody → Result EventConversionError (Event X)
  unfolding old_row
  convert_delete_to_event schema_cache body =
      and_then (ok_or (get_table_schema schema_cache body.rel_id) (missing_schema body.rel_id))
        λ schema.
          and_then (old_row schema.column_schemas body.old_tuple body.key_tuple)
            λ old. ok (Event.delete (record { table_id = body.rel_id; old_table_row = old }))

  unfoldable pub convert_message_to_event :
      SchemaCache → LogicalReplicationMessage → Result EventConversionError (Event X)
  unfolding relation_from_protocol convert_insert_to_event convert_update_to_event
      convert_delete_to_event
  convert_message_to_event schema_cache (LogicalReplicationMessage.begin body) = ok (
      Event.begin
        (record { final_lsn = body.final_lsn; timestamp = body.timestamp; xid = body.xid }))
  convert_message_to_event schema_cache (LogicalReplicationMessage.commit body) = ok (
      Event.commit (record {
        flags = body.flags;
        commit_lsn = body.commit_lsn;
        end_lsn = body.end_lsn;
        timestamp = body.timestamp;
      }))
  convert_message_to_event schema_cache (LogicalReplicationMessage.relation body) =
      and_then (relation_from_protocol body) λ e. ok (Event.relation e)
  convert_message_to_event schema_cache (LogicalReplicationMessage.insert body) =
      convert_insert_to_event schema_cache body
  convert_message_to_event schema_cache (LogicalReplicationMessage.update body) =
      convert_update_to_event schema_cache body
  convert_message_to_event schema_cache (LogicalReplicationMessage.delete body) =
      convert_delete_to_event schema_cache body
  convert_message_to_event schema_cache (LogicalReplicationMessage.truncate body) =
      ok (Event.truncate (record { options = body.options; rel_ids = body.rel_ids }))
  convert_message_to_event schema_cache LogicalReplicationMessage.origin = ok Event.unsupported
  convert_message_to_event schema_cache LogicalReplicationMessage.type = ok Event.unsupported
  convert_message_to_event schema_cache LogicalReplicationMessage.other =
      err unknown_replication_message
