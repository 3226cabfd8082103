-- ===== src/State/Store/Contract.antt =====
-- The two state stores as instances of `StateStore`.
use pg_replicate.Base.{refl, inl, inr}
use pg_replicate.State.Store.{StateStore}
use pg_replicate.State.Store.Memory.{MemoryStateStore}
use pg_replicate.State.Store.Memory
use pg_replicate.State.Store.Postgres.{LsnText, PostgresStateStore}
use pg_replicate.State.Store.Postgres
use pg_replicate.State.Store.Postgres.Reload.{Outcome-total}

-- The store in memory never fails.
unfoldable pub memory_store : StateStore MemoryStateStore
unfolding Memory.get_table_replication_state Memory.get_table_replication_states
    Memory.update_table_replication_state
memory_store = record {
  get_table_replication_state = Memory.get_table_replication_state;
  get_table_replication_states = Memory.get_table_replication_states;
  update_table_replication_state = Memory.update_table_replication_state;
  cache = λ s. s.table_replication_states;
  get_lem = λ t w. refl;
  states_lem = λ w. refl;
  update-ok = λ t p w h. refl;
  update-err = λ t p w e h. cc;
}

-- The store in Postgres fails before it writes, or writes the row and the cache.
pub postgres_store : LsnText → StateStore PostgresStateStore
unfolding Postgres.get_table_replication_state Postgres.get_table_replication_states
postgres_store lsns = record {
  get_table_replication_state = Postgres.get_table_replication_state lsns;
  get_table_replication_states = Postgres.get_table_replication_states lsns;
  update_table_replication_state = Postgres.update_table_replication_state lsns;
  cache = λ s. s.table_states;
  get_lem = λ t w. refl;
  states_lem = λ w. refl;
  update-ok = λ t p w h. elim (Outcome-total lsns t p w) [
    | inl (x, fs, e) ↦ cc (e, h)
    | inr (state, lsn, fs, stored, e) ↦ rw e
  ];
  update-err = λ t p w x h. elim (Outcome-total lsns t p w) [
    | inl (x, fs, e) ↦ rw e
    | inr (state, lsn, fs, stored, e) ↦ cc (e, h)
  ];
}
