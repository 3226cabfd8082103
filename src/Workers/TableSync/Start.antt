-- ===== src/Workers/TableSync/Start.antt =====
-- etl/src/workers/table_sync.rs: starting a table sync worker, before its task runs.
use pg_replicate.Base.{ℕ, Option, none, some, ok, err, Exec, ◌>>=◌, raise}
use pg_replicate.State.Phase.{TableReplicationPhase}
use pg_replicate.State.Store.{StateStore, StateStoreError}
use pg_replicate.Workers.TableSync.{TableSyncWorkerHandle}

pub data TableSyncWorkerError : Type 0 where
  replication_state_missing : ℕ → TableSyncWorkerError
  state_store : StateStoreError → TableSyncWorkerError

module _ {S D J : Type 0} (states : StateStore S) (spawn : ℕ → D → J × D) where
  unfoldable pub load_state : ℕ → Exec (S × D) TableSyncWorkerError (Option TableReplicationPhase)
  load_state table_id (store, d) =
      let (r, store') = states.get_table_replication_state table_id store in
      (elim r [ ok phase ↦ ok phase | err e ↦ err (state_store e) ], (store', d))

  unfoldable pub spawn_worker :
      ℕ → TableReplicationPhase → Exec (S × D) TableSyncWorkerError (TableSyncWorkerHandle J)
  spawn_worker table_id phase (store, d) =
      let (handle, d') = spawn table_id d in
      (
        ok record {
          state = record { table_id = table_id; table_replication_phase = phase };
          handle = some handle;
        },
        (store, d'),
      )

  -- `spawn` runs the worker's task.
  unfoldable pub start : ℕ → Exec (S × D) TableSyncWorkerError (TableSyncWorkerHandle J)
  unfolding load_state spawn_worker
  start table_id = do
    found ← load_state table_id
    elim found [
      | none ↦ raise (replication_state_missing table_id)
      | some phase ↦ spawn_worker table_id phase
    ]
