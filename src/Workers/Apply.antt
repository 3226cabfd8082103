-- ===== src/Workers/Apply.antt =====
-- etl/src/workers/apply.rs: the apply worker, and its hook of the apply loop.
pub mod Decide
pub mod Ready
pub mod Starts
pub mod Initialize
use pg_replicate.Base.{
  ℕ, Bool, true, false, ◌&&◌, not, Option, none, some, List, [], ◌∷◌, Result, ok, err, Exec, ◌>>=◌,
  ◌>>◌, pure, raise, lift, gets, modify, continue, leb, ◌==◌, if◌then◌else◌,
}
use pg_replicate.Base.Assoc.{Map, get}
use pg_replicate.State.Phase.{TableReplicationPhase, TableReplicationPhaseType, as_type, same_type}
use pg_replicate.State.Store.{StateStore, StateStoreError}
use pg_replicate.Concurrency.Shutdown.{ShutdownResult, should_shutdown}
use pg_replicate.Replication.Common.{get_table_replication_states}
use pg_replicate.Replication.Apply.Interface.{ApplyLoopError, ApplyLoopHook}
use pg_replicate.Workers.Base.{WorkerType}
use pg_replicate.Workers.TableSync.{TableSyncWorkerHandle, Worker, Step, set_phase, set_phase_with}
use pg_replicate.Workers.TableSync.Start.{TableSyncWorkerError}
use pg_replicate.Workers.TableSync.Start
use pg_replicate.Workers.Pool.{
  TableSyncWorkerPool, add_active, get_active_worker_state, start_worker,
}

-- What the apply worker shares with the table sync workers: the state store, the pool, and the rest.
pub record Shared (S J D : Type 0) : Type 0 where
  pub store : S
  pub pool : TableSyncWorkerPool J
  pub outside : D

abbrev pub Act : Type 0 → Type 0 → Type 0 → Type 0 → Type 0
Act S J D A = Exec (Shared S J D) ApplyLoopError A

hook_error : {E A : Type 0} → Result E A → Result ApplyLoopError A
hook_error (ok a) = ok a
hook_error (err e) = err ApplyLoopError.hook

module _ {S J D : Type 0} where
  unfoldable pub on_store : {A : Type 0} → Exec S StateStoreError A → Act S J D A
  unfolding hook_error
  on_store op w = let (r, store) = op w.store in (hook_error r, record w { store = store })

  -- A method on the state that an active worker shares.
  pub on_worker : {A : Type 0} → ℕ → TableSyncWorkerHandle J → Step S D A → Act S J D A
  unfolding add_active
  on_worker table_id worker op w =
      let (r, worker') =
        op (record { inner = worker.state; store = w.store; outside = w.outside }) in
      (
        r,
        record {
          store = worker'.store;
          pool = add_active table_id (record worker { state = worker'.inner }) w.pool;
          outside = worker'.outside;
        },
      )

  -- Errors are logged only.
  pub ignore : {A : Type 0} → Act S J D A → Act S J D (Unit {0})
  ignore op w = (ok tt, (op w).1)

-- `spawn` runs a task; `wait_for_phase_type` waits for a table sync worker while the other tasks go on.
pub record Tasks (S J D : Type 0) : Type 0 where
  pub spawn : ℕ → D → J × D
  pub wait_for_phase_type :
      ℕ
      → TableReplicationPhaseType
      → Shared S J D
      → ShutdownResult (Unit {0}) (Unit {0}) × Shared S J D

module _ {S J D : Type 0} (states : StateStore S) (tasks : Tasks S J D) where
  pub start_table_sync_worker : ℕ → Act S J D (Unit {0})
  unfolding start_worker Start.start hook_error
  start_table_sync_worker table_id w =
      let (r, (pool, (store, outside))) =
        start_worker (Start.start states tasks.spawn table_id) table_id
          (w.pool, (w.store, w.outside)) in
      (
        elim r [ ok started ↦ ok tt | err e ↦ err ApplyLoopError.hook ],
        record { store = store; pool = pool; outside = outside },
      )

  wait_for_sync_done : ℕ → Act S J D Bool
  unfolding should_shutdown
  wait_for_sync_done table_id w =
      let (r, w') = tasks.wait_for_phase_type table_id TableReplicationPhaseType.sync_done w in
      (ok (not (should_shutdown r)), w')

  pub handle_existing_worker : ℕ → TableSyncWorkerHandle J → ℕ → Act S J D Bool
  unfolding on_worker set_phase_with wait_for_sync_done
  handle_existing_worker table_id worker current_lsn =
      if same_type (as_type worker.state.table_replication_phase)
        TableReplicationPhaseType.sync_wait
      then on_worker table_id worker
          (set_phase_with states (TableReplicationPhase.catchup current_lsn))
        >> wait_for_sync_done table_id
      else pure true

  pub handle_syncing_table : ℕ → ℕ → Act S J D Bool
  unfolding handle_existing_worker start_table_sync_worker
  handle_syncing_table table_id current_lsn = do
    active ← gets (λ w. get w.pool.active table_id)
    elim active [
      | none ↦ start_table_sync_worker table_id >> pure true
      | some worker ↦ handle_existing_worker table_id worker current_lsn
    ]

  start_missing : List (ℕ × TableReplicationPhase) → Act S J D (Unit {0})
  unfolding ignore start_table_sync_worker
  start_missing [] = pure tt
  start_missing ((table_id, phase) ∷ rest) = do
    active ← gets (λ w. get w.pool.active table_id)
    elim active [ none ↦ ignore (start_table_sync_worker table_id) | some worker ↦ pure tt ]
    start_missing rest

  pub initialize : Act S J D (Unit {0})
  unfolding on_store get_table_replication_states start_missing
  initialize = do
    active_table_replication_states ← on_store (get_table_replication_states states false)
    start_missing active_table_replication_states

  pub mark_ready : ℕ → Act S J D (Unit {0})
  unfolding on_store
  mark_ready table_id =
      on_store (states.update_table_replication_state table_id TableReplicationPhase.ready)

  pub process_table : ℕ → Bool → ℕ → TableReplicationPhase → Act S J D (Unit {0})
  unfolding mark_ready ignore handle_syncing_table
  process_table current_lsn update_state table_id (TableReplicationPhase.sync_done lsn) =
      if leb lsn current_lsn && update_state then mark_ready table_id else pure tt
  process_table current_lsn update_state table_id phase =
      ignore (handle_syncing_table table_id current_lsn)

  pub process_tables : ℕ → Bool → Map TableReplicationPhase → Act S J D (Unit {0})
  unfolding process_table
  process_tables current_lsn update_state [] = pure tt
  process_tables current_lsn update_state ((table_id, phase) ∷ rest) =
      process_table current_lsn update_state table_id phase
      >> process_tables current_lsn update_state rest

  pub process_syncing_tables : ℕ → Bool → Act S J D Bool
  unfolding on_store get_table_replication_states process_tables
  process_syncing_tables current_lsn update_state = do
    active_table_replication_states ← on_store (get_table_replication_states states false)
    process_tables current_lsn update_state active_table_replication_states
    pure true

  -- The phase in memory is set too, where a worker is active.
  unfoldable pub skip_active : ℕ → Option (TableSyncWorkerHandle J) → Act S J D (Unit {0})
  unfolding on_worker set_phase
  skip_active table_id none = pure tt
  skip_active table_id (some worker) =
      on_worker table_id worker (set_phase states TableReplicationPhase.skipped)

  unfoldable pub skip_table : ℕ → Act S J D Bool
  unfolding skip_active on_store
  skip_table table_id = do
    active ← gets (λ w. get w.pool.active table_id)
    skip_active table_id active
    on_store (states.update_table_replication_state table_id TableReplicationPhase.skipped)
    pure true

  -- The phase in memory, or else the one in the store.
  current_phase : ℕ → Act S J D (Option TableReplicationPhase)
  unfolding get_active_worker_state on_store
  current_phase table_id w = elim (get_active_worker_state table_id w.pool) [
    | some state ↦ (ok (some state.table_replication_phase), w)
    | none ↦ on_store (states.get_table_replication_state table_id) w
  ]

  applies : ℕ → TableReplicationPhase → Bool
  applies remote_final_lsn TableReplicationPhase.ready = true
  applies remote_final_lsn (TableReplicationPhase.sync_done lsn) = leb lsn remote_final_lsn
  applies remote_final_lsn phase = false

  pub should_apply_changes : ℕ → ℕ → Act S J D Bool
  unfolding current_phase applies
  should_apply_changes table_id remote_final_lsn = do
    replication_phase ← current_phase table_id
    pure (elim replication_phase [ none ↦ false | some phase ↦ applies remote_final_lsn phase ])

  -- The hook of the apply worker.
  abbrev pub apply_worker_hook : ApplyLoopHook (Shared S J D)
  apply_worker_hook = record {
    initialize = initialize;
    process_syncing_tables = process_syncing_tables;
    skip_table = skip_table;
    should_apply_changes = should_apply_changes;
    worker_type = WorkerType.apply;
  }
