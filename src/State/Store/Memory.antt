-- ===== src/State/Store/Memory.antt =====
-- etl/src/state/store/memory.rs: the store that keeps the phases in memory only.
use pg_replicate.Base.{ℕ, Option, ok, Exec, length, []}
use pg_replicate.Base.Assoc.{Map}
use pg_replicate.Base.Assoc
use pg_replicate.State.Phase.{TableReplicationPhase}
use pg_replicate.State.Store.{StateStoreError}

pub record MemoryStateStore : Type 0 where
  pub table_replication_states : Map TableReplicationPhase

unfoldable pub new : MemoryStateStore
new = record { table_replication_states = [] }

unfoldable pub get_table_replication_state :
    ℕ → Exec MemoryStateStore StateStoreError (Option TableReplicationPhase)
get_table_replication_state table_id s = (ok (Assoc.get s.table_replication_states table_id), s)

unfoldable pub get_table_replication_states :
    Exec MemoryStateStore StateStoreError (Map TableReplicationPhase)
get_table_replication_states s = (ok s.table_replication_states, s)

unfoldable pub load_table_replication_states : Exec MemoryStateStore StateStoreError ℕ
load_table_replication_states s = (ok (length s.table_replication_states), s)

unfoldable pub update_table_replication_state :
    ℕ → TableReplicationPhase → Exec MemoryStateStore StateStoreError (Unit {0})
update_table_replication_state table_id state s = (
  ok tt,
  record s { table_replication_states = Assoc.insert s.table_replication_states table_id state },
)
