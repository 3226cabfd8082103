-- ===== src/Destination/BigQuery.antt =====
-- etl/src/destination/bigquery.rs: the destination that streams rows to BigQuery.
pub mod Group
pub mod Deliver
pub mod TypeNames
use pg_replicate.Base.{
  ℕ, suc, length, Bool, true, false, Option, none, some, List, [], ◌∷◌, ◌++◌, Result, ok, err, Exec,
  ◌>>=◌, ◌>>◌, pure, raise, lift, gets, modify, continue, ok_or, and_then, is_empty, if◌then◌else◌,
  Text, codes,
}
use pg_replicate.Base.Assoc.{Map, get, insert}
use pg_replicate.Base.Loop.{Turn, return, again, run_turns}
use pg_replicate.Schema.{ColumnSchema, TableSchema, as_bigquery_table_id}
use pg_replicate.Schema.Cache.{SchemaCache, get_table_schema}
use pg_replicate.Conversions.Cell.{Cell, TableRow}
use pg_replicate.Conversions.Event.{Event, InsertEvent, UpdateEvent, DeleteEvent}

pub data BigQueryDestinationError : Type 0 where
  big_query_client missing_schema_cache : BigQueryDestinationError
  missing_table_schema : ℕ → BigQueryDestinationError

pub data BigQueryOperationType : Type 0 where
  upsert delete : BigQueryOperationType

operation_name : BigQueryOperationType → Text
operation_name upsert = codes "UPSERT"
operation_name delete = codes "DELETE"

pub into_cell : {X : Type 0} → BigQueryOperationType → Cell X
unfolding operation_name
into_cell operation = Cell.string (operation_name operation)

-- The client's state stands for the client and the dataset.
pub record Inner (D : Type 0) : Type 0 where
  pub client : D
  pub schema_cache : Option SchemaCache

abbrev pub Write : Type 0 → Type 0 → Type 0
Write D A = Exec (Inner D) BigQueryDestinationError A

-- `BigQueryClient::stream_rows`, by the table's id in BigQuery and its columns.
abbrev pub StreamRows : Type 0 → Type 0 → Type 0
StreamRows D X =
    Text → List ColumnSchema → List (TableRow X) → Exec D BigQueryDestinationError (Unit {0})

module _ {X : Type 0} where
  -- A row with the operation's cell at its end.
  unfoldable pub with_operation : BigQueryOperationType → TableRow X → TableRow X
  unfolding into_cell
  with_operation operation row = record row { values = row.values ++ into_cell operation ∷ [] }

  or_default : Option (List (TableRow X)) → List (TableRow X)
  or_default none = []
  or_default (some rows) = rows

  -- `entry(table_id).or_default().push(row)`
  pub push_row : ℕ → TableRow X → Map (List (TableRow X)) → Map (List (TableRow X))
  unfolding get insert or_default
  push_row table_id row m = insert m table_id (or_default (get m table_id) ++ row ∷ [])

  push_deleted : ℕ → Option (Bool × TableRow X) → Map (List (TableRow X)) → Map (List (TableRow X))
  unfolding push_row with_operation
  push_deleted table_id none m = m
  push_deleted table_id (some (is_key, row)) m = push_row table_id (with_operation delete row) m

  pub push_event : Event X → Map (List (TableRow X)) → Map (List (TableRow X))
  unfolding push_row with_operation push_deleted
  push_event (Event.insert e) m = push_row e.table_id (with_operation upsert e.table_row) m
  push_event (Event.update e) m = push_row e.table_id (with_operation upsert e.table_row) m
  push_event (Event.delete e) m = push_deleted e.table_id e.old_table_row m
  push_event event m = m

  -- The events up to the next truncate, by table, and the others.
  pub collect_events :
      List (Event X) → Map (List (TableRow X)) → Map (List (TableRow X)) × List (Event X)
  unfolding push_event
  collect_events [] m = (m, [])
  collect_events (Event.truncate e ∷ events) m = (m, Event.truncate e ∷ events)
  collect_events (event ∷ events) m = collect_events events (push_event event m)

  -- The truncates that come next are dropped.
  pub skip_truncates : List (Event X) → List (Event X)
  skip_truncates (Event.truncate e ∷ events) = skip_truncates events
  skip_truncates events = events

module _ {D X : Type 0} (stream_rows : StreamRows D X) where
  stream_to : Text → List ColumnSchema → List (TableRow X) → Write D (Unit {0})
  stream_to name columns rows w =
      let (r, client) = stream_rows name columns rows w.client in (r, record w { client = client })

  pub load_table_id_and_descriptor :
      ℕ → Option SchemaCache → Result BigQueryDestinationError (Text × List ColumnSchema)
  unfolding get_table_schema as_bigquery_table_id
  load_table_id_and_descriptor table_id cache =
      and_then (ok_or cache missing_schema_cache) λ schema_cache.
        and_then (ok_or (get_table_schema schema_cache table_id) (missing_table_schema table_id))
          λ table_schema. ok (as_bigquery_table_id table_schema.name, table_schema.column_schemas)

  -- The rows of one table.
  pub stream_table : ℕ → List (TableRow X) → Write D (Unit {0})
  unfolding load_table_id_and_descriptor stream_to
  stream_table table_id rows = do
    cache ← gets (λ w. w.schema_cache)
    (name, columns) ← lift (load_table_id_and_descriptor table_id cache)
    stream_to name columns rows

  upsert_all : List (TableRow X) → List (TableRow X)
  unfolding with_operation
  upsert_all [] = []
  upsert_all (row ∷ rows) = with_operation upsert row ∷ upsert_all rows

  pub write_table_rows : ℕ → List (TableRow X) → Write D (Unit {0})
  unfolding upsert_all stream_table
  write_table_rows table_id table_rows = stream_table table_id (upsert_all table_rows)

  pub stream_tables : Map (List (TableRow X)) → Write D (Unit {0})
  unfolding stream_table
  stream_tables [] = pure tt
  stream_tables ((table_id, rows) ∷ rest) = stream_table table_id rows >> stream_tables rest

  -- What is left, and the destination.
  pub record Writing : Type 0 where
    pub events : List (Event X)
    pub inner : Inner D

  abbrev pub WriteTurn : Type 0
  WriteTurn = Turn Writing (Result BigQueryDestinationError (Unit {0}))

  after_stream : List (Event X) → Result BigQueryDestinationError (Unit {0}) × Inner D → WriteTurn
  unfolding skip_truncates
  after_stream events (ok u, inner) =
      again (record { events = skip_truncates events; inner = inner })
  after_stream events (err e, inner) = return (err e) (record { events = events; inner = inner })

  write_some : List (Event X) → Inner D → WriteTurn
  unfolding collect_events stream_tables after_stream
  write_some events inner =
      let (tables, rest) = collect_events events [] in
      after_stream rest (stream_tables tables inner)

  -- One turn of the outer loop.
  pub write_turn : Writing → WriteTurn
  unfolding write_some
  write_turn s = if is_empty s.events then return (ok tt) s else write_some s.events s.inner

  -- Each turn takes an event at least.
  pub write_events :
      List (Event X) → Inner D → Option (Result BigQueryDestinationError (Unit {0}) × Writing)
  unfolding write_turn run_turns
  write_events events inner =
      run_turns write_turn (suc (length events)) (record { events = events; inner = inner })
