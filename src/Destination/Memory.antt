-- ===== src/Destination/Memory.antt =====
-- etl/src/destination/memory.rs: the destination that keeps everything in memory.
use pg_replicate.Base.{ℕ, List, [], ◌∷◌, ◌++◌, ok, Exec}
use pg_replicate.Schema.{TableSchema}
use pg_replicate.Conversions.Cell.{TableRow}
use pg_replicate.Conversions.Event.{Event}

pub record MemoryDestination (X : Type 0) : Type 0 where
  pub events : List (Event X)
  pub table_schemas : List TableSchema
  pub table_rows : List (ℕ × List (TableRow X))

module _ {X E : Type 0} where
  abbrev pub write_table_schema : TableSchema → Exec (MemoryDestination X) E (Unit {0})
  write_table_schema table_schema d =
      (ok tt, record d { table_schemas = d.table_schemas ++ table_schema ∷ [] })

  abbrev pub load_table_schemas : Exec (MemoryDestination X) E (List TableSchema)
  load_table_schemas d = (ok d.table_schemas, d)

  abbrev pub write_table_rows : ℕ → List (TableRow X) → Exec (MemoryDestination X) E (Unit {0})
  write_table_rows table_id table_rows d =
      (ok tt, record d { table_rows = d.table_rows ++ (table_id, table_rows) ∷ [] })

  abbrev pub write_events : List (Event X) → Exec (MemoryDestination X) E (Unit {0})
  write_events events d = (ok tt, record d { events = d.events ++ events })

abbrev pub new : {X : Type 0} → MemoryDestination X
new = record { events = []; table_schemas = []; table_rows = [] }
