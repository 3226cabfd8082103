-- ===== src/Replication/Common.antt =====
-- etl/src/replication/common.rs: the replication states of the tables that are done, or of the others.
use pg_replicate.Base.{ℕ, Bool, true, false, not, Exec, ◌>>=◌, pure}
use pg_replicate.Base.Assoc.{Map, retain}
use pg_replicate.State.Phase.{TableReplicationPhase, as_type, is_done}
use pg_replicate.State.Store.{StateStore, StateStoreError}

-- The closure of `retain`.
unfoldable pub is_wanted : Bool → ℕ → TableReplicationPhase → Bool
is_wanted true table_id state = is_done (as_type state)
is_wanted false table_id state = not (is_done (as_type state))

unfoldable pub get_table_replication_states :
    {S : Type 0} → StateStore S → Bool → Exec S StateStoreError (Map TableReplicationPhase)
unfolding retain is_wanted
get_table_replication_states states done = do
  table_replication_states ← states.get_table_replication_states
  pure (retain (is_wanted done) table_replication_states)
