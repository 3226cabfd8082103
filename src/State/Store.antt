-- ===== src/State/Store.antt =====
-- etl/src/state/store/base.rs: what a state store promises to the workers. `W` is the state of the
-- world that the store is part of.
pub mod Memory
pub mod Postgres
pub mod Contract
use pg_replicate.Base.{ℕ, Bool, ◌≡◌, Option, Result, ok, err, Exec, Text}
use pg_replicate.Base.Assoc.{Map}
use pg_replicate.Base.Assoc
use pg_replicate.State.Phase.{TableReplicationPhase}

-- The errors carry only what the source branches on or what names the case.
pub data StateStoreError : Type 0 where
  database : StateStoreError
  invalid_confirmed_flush_lsn : Text → StateStoreError
  in_memory_phase : StateStoreError
  missing_sync_done_lsn : StateStoreError

-- The trait, with its documented contract: reads come from the cache, an update that succeeds is in
-- the cache, and one that fails leaves the cache alone.
pub record StateStore (W : Type 0) : Type 0 where
  pub get_table_replication_state : ℕ → Exec W StateStoreError (Option TableReplicationPhase)
  pub get_table_replication_states : Exec W StateStoreError (Map TableReplicationPhase)
  pub update_table_replication_state : ℕ → TableReplicationPhase → Exec W StateStoreError (Unit {0})
  pub cache : W → Map TableReplicationPhase
  pub get_lem : (t : ℕ) (w : W) → get_table_replication_state t w ≡ (ok (Assoc.get (cache w) t), w)
  pub states_lem : (w : W) → get_table_replication_states w ≡ (ok (cache w), w)
  pub update-ok :
      (t : ℕ) (p : TableReplicationPhase) (w : W)
      → (update_table_replication_state t p w).0 ≡ ok tt
      → cache (update_table_replication_state t p w).1 ≡ Assoc.insert (cache w) t p
  pub update-err :
      (t : ℕ) (p : TableReplicationPhase) (w : W) (e : StateStoreError)
      → (update_table_replication_state t p w).0 ≡ err e
      → cache (update_table_replication_state t p w).1 ≡ cache w
