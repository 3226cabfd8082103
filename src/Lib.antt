-- ===== src/Lib.antt =====
-- A model of the replication core of the repository: how the changes of a Postgres database are
-- read from its logical replication stream, decoded, sent to a destination in batches, and
-- acknowledged.
--
-- The parts, and the code they model:
--   Base          results with errors, methods on a state, maps keyed by table id, texts as lists of
--                 code points or bytes, and the rules for what a method leaves behind (Base/Triple)
--   State         etl/src/state: the phase of a table (State/Phase), the interface of a state store
--                 (State/Store), the store in memory and the store in Postgres behind a cache
--   Schema        postgres/src/schema.rs and etl/src/schema/cache.rs: `partial_eq`, `SchemaCache`
--   Conversions   etl/src/conversions: `from_bytea_hex` (Hex), `parse_array` (ArrayText),
--                 `try_from_str` and `default_value` (TextFormat), the decoder of COPY lines
--                 (TableRow), the protobuf encoding of rows (Encode), and the events of logical
--                 replication (Event); Protocol holds what the program reads of the messages of
--                 the crate postgres_replication
--   Concurrency   etl/src/concurrency: the result of a shutdown (Shutdown), the batched stream
--                 (Stream), and the future that reports to a callback (Future)
--   Workers       etl/src/workers: the types of workers (Base, base.rs), the state of a table sync
--                 worker with its waits and its hook of the apply loop (TableSync, table_sync.rs), the
--                 pool (Pool, pool.rs), and the hook of the apply worker (Apply, apply.rs)
--   Replication   etl/src/replication: slot names (Slot, slot.rs), status updates (Status, stream.rs
--                 and `StatusUpdate` of apply.rs), and the apply loop (Apply, apply.rs), with its state
--                 (Apply/State), the handlers of messages (Apply/Messages) and the loop with its batch
--                 (Apply/Loop); the states of tables (Common, common.rs), and the sync of a table with
--                 its copy (TableSync, table_sync.rs)
--   Destination   etl/src/destination: the destination in memory (Memory), and BigQuery (BigQuery) with
--                 the names of column types (BigQuery/TypeNames), and the columns of its client,
--                 etl/src/clients/bigquery.rs (Columns)
--   Pipeline      etl/src/pipeline.rs: the set-up of the tables, the start, the wait and the shutdown
--   Tests         the theorems at concrete inputs
--
-- The apply loop reads a message, converts it by Conversions with the schema cache, asks the hook
-- of its worker whether to apply it, adds the event to the batch, and sends the batch to the
-- destination when it is due. Only then is the end of the last commit acknowledged, and the hook
-- told to mark tables. A function of the source is a definition of the same name; a long one is cut
-- at its blocks into definitions that are composed in the order of the code. A method that mutates
-- is a function on the state that returns a result beside the new state, so that what was written
-- before an error stays written. `select!` is a list of inputs, one for each round of the loop, in
-- any order; `run_loop` is structural in it and returns `none` when the inputs end first.
--
-- The apply worker's hook looks at the state store and at the pool: it starts a table sync worker
-- for each table that is not done, sets a worker that waits to catch up, and marks tables as ready.
-- A table sync worker copies its table, waits for the catch up, and then runs the apply loop with
-- its own hook. What other tasks do while one waits is an argument: a list of pauses for the wait
-- for a phase, a list of starts and ends for the wait for the pool. A waiting that goes on returns
-- `none`; so does the apply worker's handle while it runs. A handle in the pool holds the state
-- that it shares with its worker, and a method on it writes it back.
--
-- A loop that ends by itself takes turns (Base/Loop) on fuel: the batched stream one turn more than
-- the size of a batch, since each turn but the last adds an item; the reactive future three turns,
-- one for each of its states; the writing of events one turn more than there are events, since each
-- turn takes one. A hash map is an association list, in the order of its entries.
--
-- Parameters: the hook of the worker, the destination, the stream, the clock (`Surroundings`), the
-- parsers of other crates (`Externals`), the printing of an lsn (`LsnText`), the client and the
-- destination of a table copy (`CopyLinks`), the tasks (`Tasks`, `Runtime`), the BigQuery client's
-- `stream_rows`, the encodings of the crate prost (`Prost`), and what a pipeline calls (`Links`).
-- `Delivers` says what the loop's invariant needs of them. The database behind the Postgres store
-- is the list of its rows with a schedule of the calls that fail. Times are milliseconds, positions
-- natural numbers; the numbers of the protocol are taken as given in their width. `print_digits`
-- has fuel of one more than the number, which is more than its digits.
--
-- Not modelled: the tasks that run the workers, the metadata tables of BigQuery and its client, the
-- replication client, the clearing of rows, the API service, the configuration, the replicator
-- binary and telemetry; logging anywhere.

pub mod Base
pub mod State
pub mod Schema
pub mod Concurrency
pub mod Conversions
pub mod Workers
pub mod Replication
pub mod Destination
pub mod Pipeline
pub mod Tests
