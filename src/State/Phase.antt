-- ===== src/State/Phase.antt =====
-- etl/src/state/table.rs: the phases through which the replication of a table goes.
use pg_replicate.Base.{ℕ, Bool, true, false}

-- An lsn is the 64-bit number that `PgLsn` wraps.
pub data TableReplicationPhase : Type 0 where
  init data_sync finished_copy sync_wait : TableReplicationPhase
  catchup : ℕ → TableReplicationPhase
  sync_done : ℕ → TableReplicationPhase
  ready skipped : TableReplicationPhase

pub data TableReplicationPhaseType : Type 0 where
  init data_sync finished_copy sync_wait catchup sync_done ready skipped : TableReplicationPhaseType

unfoldable pub as_type : TableReplicationPhase → TableReplicationPhaseType
as_type TableReplicationPhase.init = TableReplicationPhaseType.init
as_type TableReplicationPhase.data_sync = TableReplicationPhaseType.data_sync
as_type TableReplicationPhase.finished_copy = TableReplicationPhaseType.finished_copy
as_type TableReplicationPhase.sync_wait = TableReplicationPhaseType.sync_wait
as_type (TableReplicationPhase.catchup lsn) = TableReplicationPhaseType.catchup
as_type (TableReplicationPhase.sync_done lsn) = TableReplicationPhaseType.sync_done
as_type TableReplicationPhase.ready = TableReplicationPhaseType.ready
as_type TableReplicationPhase.skipped = TableReplicationPhaseType.skipped

unfoldable pub should_store : TableReplicationPhaseType → Bool
should_store TableReplicationPhaseType.init = true
should_store TableReplicationPhaseType.data_sync = true
should_store TableReplicationPhaseType.finished_copy = true
should_store TableReplicationPhaseType.sync_wait = false
should_store TableReplicationPhaseType.catchup = false
should_store TableReplicationPhaseType.sync_done = true
should_store TableReplicationPhaseType.ready = true
should_store TableReplicationPhaseType.skipped = true

unfoldable pub is_done : TableReplicationPhaseType → Bool
is_done TableReplicationPhaseType.init = false
is_done TableReplicationPhaseType.data_sync = false
is_done TableReplicationPhaseType.finished_copy = false
is_done TableReplicationPhaseType.sync_wait = false
is_done TableReplicationPhaseType.catchup = false
is_done TableReplicationPhaseType.sync_done = false
is_done TableReplicationPhaseType.ready = true
is_done TableReplicationPhaseType.skipped = true

-- `PhaseType` values are compared by `==`.
unfoldable pub same_type : TableReplicationPhaseType → TableReplicationPhaseType → Bool
same_type TableReplicationPhaseType.init TableReplicationPhaseType.init = true
same_type TableReplicationPhaseType.data_sync TableReplicationPhaseType.data_sync = true
same_type TableReplicationPhaseType.finished_copy TableReplicationPhaseType.finished_copy = true
same_type TableReplicationPhaseType.sync_wait TableReplicationPhaseType.sync_wait = true
same_type TableReplicationPhaseType.catchup TableReplicationPhaseType.catchup = true
same_type TableReplicationPhaseType.sync_done TableReplicationPhaseType.sync_done = true
same_type TableReplicationPhaseType.ready TableReplicationPhaseType.ready = true
same_type TableReplicationPhaseType.skipped TableReplicationPhaseType.skipped = true
same_type _ _ = false
