-- ===== src/Tests/Destination.antt =====
-- Writing to BigQuery, its type names and the setting up of a pipeline's tables at concrete inputs.
use pg_replicate.Base.{
  ◌+◌, ℕ, ◌≡◌, refl, arith, true, ◌⊎◌, some, List, [], ◌∷◌, ◌++◌, Result, ok, Text, codes, All,
}
use pg_replicate.Base.Assoc.{get, contains_key}
use pg_replicate.Base.Int.{pos}
use pg_replicate.Base.Triple.{After}
use pg_replicate.Schema.Types.{PgType}
use pg_replicate.Schema.{TableSchema, as_bigquery_table_id}
use pg_replicate.Schema.Cache.{SchemaCache, get_table_schema}
use pg_replicate.State.Phase.{TableReplicationPhase}
use pg_replicate.Conversions.Cell.{Cell, TableRow}
use pg_replicate.Conversions.Event.{Event}
use pg_replicate.Destination.BigQuery.{
  BigQueryDestinationError, Inner, StreamRows, Writing, write_events,
}
use pg_replicate.Destination.BigQuery.Group.{rows_for}
use pg_replicate.Destination.BigQuery.Deliver.{Logs, sent, IsAlone, write_events-Sent}
use pg_replicate.Destination.BigQuery.TypeNames.{
  IsNamed, postgres_type_to_string, string_to_postgres_type, string_to_postgres_type-name,
}
use pg_replicate.Pipeline.{Links, PipelineWorld, load_and_add}
use pg_replicate.Pipeline.States.{load_and_add-IsSetUp}
use pg_replicate.Tests.ApplyWorker.{Recorded, recorded_store, phases}

-- A client that records what it streams.
abbrev stream_rows : StreamRows (List (Text × List (TableRow ℕ))) ℕ
stream_rows name columns rows d = (ok tt, d ++ (name, rows) ∷ [])

stream_rows-Logs : Logs stream_rows (λ d. d)
stream_rows-Logs = record {
  streamed = λ name columns rows before. record { run = λ d e. rw e refl };
}

abbrev table_schema : TableSchema
table_schema = record {
  id = 5;
  name = record { schema = codes "public"; name = codes "t" };
  column_schemas = [];
}

abbrev cache : SchemaCache
cache = record { table_schemas = (5, table_schema) ∷ [] }

alone :
    (j : ℕ) (other : TableSchema)
    → get_table_schema cache j ≡ some other
    → as_bigquery_table_id other.name ≡ as_bigquery_table_id table_schema.name
    → j ≡ 5
unfolding get_table_schema get
alone j other e named = ground arith

is_alone : IsAlone cache 5 (as_bigquery_table_id table_schema.name)
unfolding get_table_schema get
is_alone = record { schema = table_schema; found = refl; named = refl; alone = alone }

abbrev row : ℕ → TableRow ℕ
row n = record { values = Cell.u32 n ∷ [] }

-- An insert, a truncate and a delete.
abbrev events : List (Event ℕ)
events =
    Event.insert (record { table_id = 5; table_row = row 1 })
    ∷ Event.truncate (record { options = pos 0; rel_ids = 5 ∷ [] })
    ∷ Event.delete (record { table_id = 5; old_table_row = some (true, row 1) })
    ∷ []

abbrev inner : Inner (List (Text × List (TableRow ℕ)))
inner = record { client = []; schema_cache = some cache }

write_events-Sent_example :
    (r : Result BigQueryDestinationError (Unit {0})) × (s : Writing stream_rows) × (write_events
        stream_rows events inner
      ≡ some (r, s))
    × (r ≡ ok tt
        → sent (as_bigquery_table_id table_schema.name) s.inner.client
          ≡ sent (as_bigquery_table_id table_schema.name) [] ++ rows_for 5 events)
write_events-Sent_example =
    write_events-Sent stream_rows (λ d. d) stream_rows-Logs cache 5
      (as_bigquery_table_id table_schema.name) is_alone events inner refl

abbrev type_name : PgType → Text
type_name t = codes "numeric"

string_to_postgres_type-name_example :
    (IsNamed PgType.numeric
      × (string_to_postgres_type (postgres_type_to_string type_name PgType.numeric)
          ≡ PgType.numeric))
    ⊎ ((¬ IsNamed PgType.numeric)
        × (string_to_postgres_type (postgres_type_to_string type_name PgType.numeric)
            ≡ PgType.text))
string_to_postgres_type-name_example = string_to_postgres_type-name type_name PgType.numeric

abbrev links : Links Recorded ℕ ℕ
links = record {
  publication_exists = λ name d. (ok true, d);
  get_publication_table_ids = λ name d. (ok (1 ∷ 2 ∷ 7 ∷ []), d);
  load_table_replication_states = λ s. (ok tt, s);
  inject = λ cache d. (ok tt, d);
  load_table_schemas = λ d. (ok [], d);
  connect = λ d. (ok tt, d);
  start_apply_worker = λ cache d. (ok 0, d);
  wait_apply_worker = λ h. some (ok tt);
  send_shutdown = λ d. (ok tt, d + 1);
}

abbrev world : PipelineWorld Recorded ℕ
world = record { store = record { phases = phases; updates = [] }; outside = 0 }

load_and_add-IsSetUp_example :
    After
      (λ u v.
        All (λ t. contains_key v.store.phases t ≡ true) (1 ∷ 2 ∷ 7 ∷ [])
        × ((t : ℕ) (phase : TableReplicationPhase)
            → get phases t ≡ some phase
            → get v.store.phases t ≡ some phase))
      (λ v. Unit {0})
      (load_and_add recorded_store links (1 ∷ 2 ∷ 7 ∷ []) world)
load_and_add-IsSetUp_example = load_and_add-IsSetUp recorded_store links (1 ∷ 2 ∷ 7 ∷ []) world
