-- ===== src/Replication/Apply/Interface.antt =====
-- What the apply loop uses of its surroundings: the hook of the worker that runs it, the destination,
-- the schema cache, the clock and the replication stream, as operations on the state `W` of the world.
use pg_replicate.Base.{ℕ, Bool, List, Exec}
use pg_replicate.Base.{Text}
use pg_replicate.Schema.Cache.{SchemaCache}
use pg_replicate.Conversions.Cell.{Externals}
use pg_replicate.Conversions.Event.{Event, EventType, EventConversionError}
use pg_replicate.Replication.Slot.{SlotError}
use pg_replicate.Replication.Status.{EventsStreamError, StatusLink}
use pg_replicate.Workers.Base.{WorkerType}

-- What a failing hook or destination reports is not looked at.
pub data ApplyLoopError : Type 0 where
  hook pg_replication destination : ApplyLoopError
  logical_replication_stream_failed : EventsStreamError → ApplyLoopError
  slot : SlotError → ApplyLoopError
  event_conversion : EventConversionError → ApplyLoopError
  invalid_transaction : Text → ApplyLoopError
  invalid_commit_lsn : ℕ → ℕ → ApplyLoopError
  invalid_event : EventType → EventType → ApplyLoopError
  missing_table_schema : ℕ → ApplyLoopError

-- `ApplyLoopHook`
pub record ApplyLoopHook (W : Type 0) : Type 0 where
  pub initialize : Exec W ApplyLoopError (Unit {0})
  pub process_syncing_tables : ℕ → Bool → Exec W ApplyLoopError Bool
  pub skip_table : ℕ → Exec W ApplyLoopError Bool
  pub should_apply_changes : ℕ → ℕ → Exec W ApplyLoopError Bool
  pub worker_type : WorkerType

pub record Surroundings (W X : Type 0) : Type 0 where
  pub ext : Externals X
  pub hook : ApplyLoopHook W
  pub link : StatusLink W
  pub schema_cache : W → SchemaCache
  -- `Destination::write_events`
  pub write_events : List (Event X) → Exec W ApplyLoopError (Unit {0})
  -- `PgReplicationClient::start_logical_replication`, by publication, slot and position
  pub start_logical_replication : Text → Text → ℕ → Exec W ApplyLoopError (Unit {0})
