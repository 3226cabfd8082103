-- ===== src/Replication/TableSync.antt =====
-- etl/src/replication/table_sync.rs: the copy of a table, up to the point where its worker catches up.
pub mod Copy
pub mod Phases
use pg_replicate.Base.{
  ℕ, Bool, true, false, Option, none, some, List, [], ◌∷◌, Result, ok, err, Exec, ◌>>=◌, ◌>>◌, pure,
  raise, lift, gets, modify, continue, if◌then◌else◌, and_then, Text,
}
use pg_replicate.State.Phase.{TableReplicationPhase, TableReplicationPhaseType, as_type, same_type}
use pg_replicate.State.Store.{StateStore}
use pg_replicate.Schema.{TableSchema}
use pg_replicate.Conversions.Cell.{TableRow}
use pg_replicate.Concurrency.Shutdown.{ShutdownResult, should_shutdown}
use pg_replicate.Replication.Slot.{SlotError, get_slot_name}
use pg_replicate.Replication.Apply.Interface.{ApplyLoopError}
use pg_replicate.Workers.Base.{WorkerType}
use pg_replicate.Workers.TableSync.{Worker, Step, set_phase_with}
use pg_replicate.Workers.TableSync.Wait.{Signal, wait_for_phase_type}

-- Only whether the slot is missing is looked at.
pub data PgReplicationError : Type 0 where
  slot_not_found other : PgReplicationError

pub data TableSyncError : Type 0 where
  invalid_phase : TableReplicationPhaseType → TableSyncError
  slot : SlotError → TableSyncError
  pg_replication : PgReplicationError → TableSyncError
  table_sync_worker_state destination table_copy_stream : TableSyncError

pub data TableSyncResult : Type 0 where
  sync_stopped sync_not_required : TableSyncResult
  sync_completed : ℕ → TableSyncResult

-- What the stream of the table copy gives: batches of rows, each of which may have failed to decode.
abbrev pub CopyBatch : Type 0 → Type 0
CopyBatch X = ShutdownResult (List (Result (Unit {0}) (TableRow X))) (Unit {0})

-- The replication client with its transaction, the schema cache and the destination, on the state `D`.
pub record CopyLinks (D X : Type 0) : Type 0 where
  pub delete_slot : Text → Exec D PgReplicationError (Unit {0})
  -- gives the slot's `consistent_point`
  pub create_slot_with_transaction : Text → Exec D PgReplicationError ℕ
  pub get_table_schema : ℕ → Exec D PgReplicationError TableSchema
  pub add_table_schema : TableSchema → D → D
  pub write_table_schema : TableSchema → Exec D TableSyncError (Unit {0})
  pub get_table_copy_stream : TableSchema → Exec D PgReplicationError (Unit {0})
  pub write_table_rows : ℕ → List (TableRow X) → Exec D TableSyncError (Unit {0})
  pub commit : Exec D PgReplicationError (Unit {0})
  -- gives the slot's `confirmed_flush_lsn`
  pub get_slot : Text → Exec D PgReplicationError ℕ

abbrev pub Sync : Type 0 → Type 0 → Type 0 → Type 0
Sync S D A = Exec (Worker S D) TableSyncError A

pub pg_error : {A : Type 0} → Result PgReplicationError A → Result TableSyncError A
pg_error (ok a) = ok a
pg_error (err e) = err (pg_replication e)

-- An error in deleting a slot is ignored if there was none.
ignore_missing : Result PgReplicationError (Unit {0}) → Result TableSyncError (Unit {0})
ignore_missing (ok u) = ok u
ignore_missing (err slot_not_found) = ok tt
ignore_missing (err other) = err (pg_replication other)

state_error : Result ApplyLoopError (Unit {0}) → Result TableSyncError (Unit {0})
state_error (ok u) = ok u
state_error (err e) = err table_sync_worker_state

-- `collect::<Result<Vec<_>, _>>()`
pub collect : {A E : Type 0} → List (Result E A) → Result E (List A)
collect [] = ok []
collect (err e ∷ rest) = err e
collect (ok a ∷ rest) = and_then (collect rest) (λ as'. ok (a ∷ as'))

pub copied_rows :
    {X : Type 0} → List (Result (Unit {0}) (TableRow X)) → Result TableSyncError (List (TableRow X))
unfolding collect
copied_rows rows = elim (collect rows) [ ok rows ↦ ok rows | err e ↦ err table_copy_stream ]

module _ {S D : Type 0} where
  -- What is done outside, with its result made the sync's.
  pub outside : {E A B : Type 0} → (Result E A → Result TableSyncError B) → Exec D E A → Sync S D B
  outside result op w = let (r, d) = op w.outside in (result r, record w { outside = d })

  pub done : {A : Type 0} → Exec D TableSyncError A → Sync S D A
  unfolding outside
  done op = outside (λ r. r) op

  -- `inner.set_phase_with(..)`, with its error made the sync's.
  pub enter : StateStore S → TableReplicationPhase → Sync S D (Unit {0})
  unfolding set_phase_with state_error
  enter states phase w = let (r, w') = set_phase_with states phase w in (state_error r, w')

module _ {S D X : Type 0} (states : StateStore S) (links : CopyLinks D X) (table_id : ℕ) where
  -- A slot that a failed copy left behind is deleted.
  pub clear_slot : TableReplicationPhaseType → Text → Sync S D (Unit {0})
  unfolding outside ignore_missing
  clear_slot phase_type slot_name =
      if same_type phase_type TableReplicationPhaseType.data_sync
      then outside ignore_missing (links.delete_slot slot_name)
      else pure tt

  -- The rows of the table: `false` when a shutdown came in between.
  pub copy_rows : List (CopyBatch X) → Sync S D Bool
  unfolding copied_rows done
  copy_rows [] = pure true
  copy_rows (ShutdownResult.shutdown u ∷ batches) = pure false
  copy_rows (ShutdownResult.ok rows ∷ batches) = do
    table_rows ← lift (copied_rows rows)
    done (links.write_table_rows table_id table_rows)
    copy_rows batches

  copy_schema : Sync S D TableSchema
  unfolding outside pg_error done
  copy_schema = do
    table_schema ← outside pg_error (links.get_table_schema table_id)
    modify (λ w. record w { outside = links.add_table_schema table_schema w.outside })
    done (links.write_table_schema table_schema)
    pure table_schema

  -- The end of the copy.
  finish_copy : ℕ → Bool → Sync S D (Option ℕ)
  unfolding outside pg_error enter
  finish_copy consistent_point false = pure none
  finish_copy consistent_point true = do
    outside pg_error links.commit
    enter states TableReplicationPhase.finished_copy
    pure (some consistent_point)

  -- The copy of the whole table: `none` when it was shut down.
  pub copy_table : List (CopyBatch X) → TableReplicationPhaseType → Text → Sync S D (Option ℕ)
  unfolding clear_slot copy_schema copy_rows finish_copy
  copy_table batches phase_type slot_name = do
    clear_slot phase_type slot_name
    enter states TableReplicationPhase.data_sync
    consistent_point ← outside pg_error (links.create_slot_with_transaction slot_name)
    table_schema ← copy_schema
    outside pg_error (links.get_table_copy_stream table_schema)
    copied ← copy_rows batches
    finish_copy consistent_point copied

  -- The position to start from, by the phase that was found.
  pub start_lsn : List (CopyBatch X) → TableReplicationPhaseType → Text → Sync S D (Option ℕ)
  unfolding copy_table
  start_lsn batches TableReplicationPhaseType.finished_copy slot_name = do
    confirmed_flush_lsn ← outside pg_error (links.get_slot slot_name)
    pure (some confirmed_flush_lsn)
  start_lsn batches phase_type slot_name = copy_table batches phase_type slot_name

  wait_result : ℕ → Option (ShutdownResult (Unit {0}) (Unit {0})) → Option TableSyncResult
  wait_result lsn none = none
  wait_result lsn (some waited) =
      if should_shutdown waited then some sync_stopped else some (sync_completed lsn)

  -- The wait for the apply worker's `catchup`.
  await_catchup : List (Signal S D) → Option ℕ → Sync S D (Option TableSyncResult)
  unfolding enter wait_for_phase_type wait_result
  await_catchup signals none = pure (some sync_stopped)
  await_catchup signals (some lsn) = do
    enter states TableReplicationPhase.sync_wait
    λ w.
        let (waited, w') = wait_for_phase_type TableReplicationPhaseType.catchup signals w in
        (ok (wait_result lsn waited), w')

  pub synchronise :
      ℕ
      → List (CopyBatch X)
      → List (Signal S D)
      → TableReplicationPhaseType
      → Sync S D (Option TableSyncResult)
  unfolding get_slot_name start_lsn await_catchup
  synchronise pipeline_id batches signals phase_type = do
    slot_name ← lift (elim (get_slot_name pipeline_id (WorkerType.table_sync table_id)) [
      | ok name ↦ ok name
      | err e ↦ err (slot e)
    ])
    lsn ← start_lsn batches phase_type slot_name
    await_catchup signals lsn

  -- What is done in each phase that the worker may be found in.
  sync_from :
      ℕ
      → List (CopyBatch X)
      → List (Signal S D)
      → TableReplicationPhaseType
      → Sync S D (Option TableSyncResult)
  unfolding synchronise
  sync_from pipeline_id batches signals TableReplicationPhaseType.sync_done =
      pure (some sync_not_required)
  sync_from pipeline_id batches signals TableReplicationPhaseType.ready =
      pure (some sync_not_required)
  sync_from pipeline_id batches signals TableReplicationPhaseType.init =
      synchronise pipeline_id batches signals TableReplicationPhaseType.init
  sync_from pipeline_id batches signals TableReplicationPhaseType.data_sync =
      synchronise pipeline_id batches signals TableReplicationPhaseType.data_sync
  sync_from pipeline_id batches signals TableReplicationPhaseType.finished_copy =
      synchronise pipeline_id batches signals TableReplicationPhaseType.finished_copy
  sync_from pipeline_id batches signals phase_type = raise (invalid_phase phase_type)

  -- `none` while the worker waits to catch up.
  pub start_table_sync :
      ℕ → List (CopyBatch X) → List (Signal S D) → Sync S D (Option TableSyncResult)
  unfolding sync_from
  start_table_sync pipeline_id batches signals w =
      sync_from pipeline_id batches signals (as_type w.inner.table_replication_phase) w
