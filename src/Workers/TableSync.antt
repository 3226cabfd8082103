-- ===== src/Workers/TableSync.antt =====
-- etl/src/workers/table_sync.rs: the state of a table sync worker, and its hook of the apply loop.
pub mod Done
pub mod Loop
pub mod Start
pub mod Wait
use pg_replicate.Base.{
  ℕ, Bool, true, false, ◌&&◌, not, Option, none, some, List, Result, ok, err, Exec, ◌>>=◌, ◌>>◌,
  pure, raise, gets, modify, continue, leb, ◌==◌, if◌then◌else◌,
}
use pg_replicate.State.Phase.{
  TableReplicationPhase, TableReplicationPhaseType, as_type, should_store,
}
use pg_replicate.State.Store.{StateStore, StateStoreError}
use pg_replicate.Workers.Base.{WorkerType}
use pg_replicate.Base.{Text}
use pg_replicate.Schema.Cache.{SchemaCache}
use pg_replicate.Conversions.Cell.{Externals}
use pg_replicate.Conversions.Event.{Event}
use pg_replicate.Replication.Status.{StatusLink}
use pg_replicate.Replication.Apply.Interface.{ApplyLoopError, ApplyLoopHook, Surroundings}

-- The fields besides the notifier.
pub record TableSyncWorkerStateInner : Type 0 where
  pub table_id : ℕ
  pub table_replication_phase : TableReplicationPhase

-- The state is shared with the worker's task; `handle` is the task, to be waited for.
pub record TableSyncWorkerHandle (J : Type 0) : Type 0 where
  pub state : TableSyncWorkerStateInner
  pub handle : Option J

-- The worker's state, the state store, and what else there is.
pub record Worker (S D : Type 0) : Type 0 where
  pub inner : TableSyncWorkerStateInner
  pub store : S
  pub outside : D

-- `matches!(.., Skipped)`
is_skipped : TableReplicationPhaseType → Bool
is_skipped TableReplicationPhaseType.skipped = true
is_skipped phase_type = false

abbrev pub Step : Type 0 → Type 0 → Type 0 → Type 0
Step S D A = Exec (Worker S D) ApplyLoopError A

-- The store's error is the hook's.
unfoldable pub stored : Result StateStoreError (Unit {0}) → Result ApplyLoopError (Unit {0})
stored (ok u) = ok u
stored (err e) = err ApplyLoopError.hook

module _ {S D : Type 0} (states : StateStore S) where
  unfoldable pub set_phase : TableReplicationPhase → Step S D (Unit {0})
  set_phase phase w =
      (ok tt, record w { inner = record w.inner { table_replication_phase = phase } })

  unfoldable pub store_phase : TableReplicationPhase → Step S D (Unit {0})
  unfolding stored
  store_phase phase w =
      let (r, store) = states.update_table_replication_state w.inner.table_id phase w.store in
      (stored r, record w { store = store })

  unfoldable pub set_phase_with : TableReplicationPhase → Step S D (Unit {0})
  unfolding set_phase store_phase
  set_phase_with phase = do
    set_phase phase
    if should_store (as_type phase) then store_phase phase else pure tt

  pub catch_up : ℕ → Bool → ℕ → Step S D Bool
  unfolding set_phase_with
  catch_up current_lsn update_state lsn =
      if leb lsn current_lsn
      then (if update_state
          then set_phase_with (TableReplicationPhase.sync_done current_lsn) >> pure false
          else pure false)
      else pure true

  pub process_phase : ℕ → Bool → TableReplicationPhase → Step S D Bool
  unfolding catch_up
  process_phase current_lsn update_state (TableReplicationPhase.catchup lsn) =
      catch_up current_lsn update_state lsn
  process_phase current_lsn update_state phase = pure true

  pub process_syncing_tables : ℕ → Bool → Step S D Bool
  unfolding process_phase
  process_syncing_tables current_lsn update_state w =
      process_phase current_lsn update_state w.inner.table_replication_phase w

  -- The first argument is the table of the hook.
  pub skip_table : ℕ → ℕ → Step S D Bool
  unfolding set_phase_with
  skip_table own_id table_id =
      if own_id == table_id
      then set_phase_with TableReplicationPhase.skipped >> pure false
      else pure true

  pub should_apply_changes : ℕ → ℕ → ℕ → Step S D Bool
  unfolding is_skipped
  should_apply_changes own_id table_id remote_final_lsn w =
      (ok (not (is_skipped (as_type w.inner.table_replication_phase)) && (own_id == table_id)), w)

  -- The hook of the worker for a table.
  abbrev pub table_sync_hook : ℕ → ApplyLoopHook (Worker S D)
  table_sync_hook table_id = record {
    initialize = pure tt;
    process_syncing_tables = process_syncing_tables;
    skip_table = skip_table table_id;
    should_apply_changes = should_apply_changes table_id;
    worker_type = WorkerType.table_sync table_id;
  }

-- The rest of what the worker's apply loop uses.
pub record Outside (D X : Type 0) : Type 0 where
  pub ext : Externals X
  pub link : StatusLink D
  pub schema_cache : D → SchemaCache
  pub write_events : List (Event X) → Exec D ApplyLoopError (Unit {0})
  pub start_logical_replication : Text → Text → ℕ → Exec D ApplyLoopError (Unit {0})

module _ {S D : Type 0} where
  unfoldable pub on_outside : {E A : Type 0} → Exec D E A → Exec (Worker S D) E A
  on_outside op w = let (r, outside) = op w.outside in (r, record w { outside = outside })

  -- What the worker passes to `start_apply_loop`.
  abbrev pub surroundings :
      {X : Type 0} → StateStore S → ℕ → Outside D X → Surroundings (Worker S D) X
  surroundings states table_id rest = record {
    ext = rest.ext;
    hook = table_sync_hook states table_id;
    link = record {
      now =
          λ w. let (at, outside) = rest.link.now w.outside in (at, record w { outside = outside });
      epoch_elapsed = on_outside rest.link.epoch_elapsed;
      standby_status_update =
          λ write flush apply at. on_outside (rest.link.standby_status_update write flush apply at);
    };
    schema_cache = λ w. rest.schema_cache w.outside;
    write_events = λ es. on_outside (rest.write_events es);
    start_logical_replication = λ p s lsn. on_outside (rest.start_logical_replication p s lsn);
  }
