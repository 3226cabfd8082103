-- ===== src/Replication/TableSync/Phases.antt =====
-- etl/src/replication/table_sync.rs: the phases in which a table sync starts.
use pg_replicate.Base.{
  ℕ, ◌≡◌, refl, ◌⊎◌, inl, inr, true, Option, none, some, List, Result, ok, err, Exec, pure, raise,
}
use pg_replicate.Base.Triple.{After, Triple, Triple-pure, Triple-bind}
use pg_replicate.State.Phase.{TableReplicationPhaseType, as_type}
use pg_replicate.State.Store.{StateStore}
use pg_replicate.Concurrency.Shutdown.{ShutdownResult, should_shutdown}
use pg_replicate.Workers.TableSync.{Worker}
use pg_replicate.Workers.TableSync.Wait.{Signal, in_phase, Says, wait_for_phase_type-Says}
use pg_replicate.Replication.TableSync.{
  TableSyncError, TableSyncResult, invalid_phase, sync_stopped, sync_not_required, sync_completed,
  CopyBatch, CopyLinks, wait_result, await_catchup, synchronise, sync_from, start_table_sync,
}

-- The phases that a table may be copied from, or resumed in.
abbrev pub CanSync : TableReplicationPhaseType → Type 0
CanSync TableReplicationPhaseType.init = Unit
CanSync TableReplicationPhaseType.data_sync = Unit
CanSync TableReplicationPhaseType.finished_copy = Unit
CanSync phase_type = ⊥

abbrev pub IsDone : TableReplicationPhaseType → Type 0
IsDone TableReplicationPhaseType.sync_done = Unit
IsDone TableReplicationPhaseType.ready = Unit
IsDone phase_type = ⊥

module _ {S D : Type 0} where
  -- What an end says of the phase at the start and of the worker.
  abbrev pub SyncSays :
      TableReplicationPhaseType
      → Worker S D
      → Result TableSyncError (Option TableSyncResult) × Worker S D
      → Type 0
  SyncSays found w (ok (some (sync_completed lsn)), v) =
      CanSync found × (in_phase TableReplicationPhaseType.catchup v ≡ true)
  SyncSays found w (ok (some sync_not_required), v) = IsDone found × (v ≡ w)
  SyncSays found w (ok (some sync_stopped), v) = CanSync found
  SyncSays found w (ok none, v) = CanSync found
  SyncSays found w (err e, v) = CanSync found ⊎ ((e ≡ invalid_phase found) × (v ≡ w))

  abbrev Caught : Option TableSyncResult → Worker S D → Type 0
  Caught (some (sync_completed lsn)) v = in_phase TableReplicationPhaseType.catchup v ≡ true
  Caught (some sync_not_required) v = ⊥
  Caught r v = Unit

  abbrev Anything : Worker S D → Type 0
  Anything v = Unit

  anything :
      {E A : Type 0} (op : Exec (Worker S D) E A) → Triple Anything op (λ a. Anything) Anything
  anything op = record { run = λ w h. either (op w) }
    where
      either : {E A : Type 0} (r : Result E A × Worker S D) → After (λ a. Anything) Anything r
      either (ok a, v) = tt
      either (err e, v) = tt

module _ {S D X : Type 0} (states : StateStore S) (links : CopyLinks D X) (table_id : ℕ) where
  wait_result-Caught :
      (lsn : ℕ) (signals : List (Signal S D)) (w : Worker S D)
      (waited : Option (ShutdownResult (Unit {0}) (Unit {0}))) (v : Worker S D)
      → Says TableReplicationPhaseType.catchup signals w (waited, v)
      → Caught (wait_result states links table_id lsn waited) v
  unfolding wait_result should_shutdown
  wait_result-Caught lsn signals w none v h = tt
  wait_result-Caught lsn signals w (some (ShutdownResult.ok u)) v h = h
  wait_result-Caught lsn signals w (some (ShutdownResult.shutdown u)) v h = tt

  await_catchup-Caught :
      (signals : List (Signal S D)) (lsn : Option ℕ)
      → Triple Anything (await_catchup states links table_id signals lsn) Caught Anything
  unfolding await_catchup
  await_catchup-Caught signals none = Triple-pure (some sync_stopped) λ w h. tt
  await_catchup-Caught signals (some lsn) =
      Triple-bind (λ u. Anything) (anything _)
        λ u. record {
          run = λ w h.
              wait_result-Caught lsn signals w _ _
                (wait_for_phase_type-Says TableReplicationPhaseType.catchup signals w);
        }

  synchronise-Caught :
      (pipeline_id : ℕ) (batches : List (CopyBatch X)) (signals : List (Signal S D))
      (phase_type : TableReplicationPhaseType)
      → Triple Anything
          (synchronise states links table_id pipeline_id batches signals phase_type)
          Caught
          Anything
  unfolding synchronise
  synchronise-Caught pipeline_id batches signals phase_type =
      Triple-bind (λ name. Anything) (anything _)
        λ name. Triple-bind (λ lsn. Anything) (anything _) λ lsn. await_catchup-Caught signals lsn

  Caught-says :
      (found : TableReplicationPhaseType) (w : Worker S D)
      → CanSync found
      → (r : Result TableSyncError (Option TableSyncResult) × Worker S D) → After Caught Anything r
      → SyncSays found w r
  Caught-says found w can (ok (some (sync_completed lsn)), v) h = (can, h)
  Caught-says found w can (ok (some sync_not_required), v) h = absurd h
  Caught-says found w can (ok (some sync_stopped), v) h = can
  Caught-says found w can (ok none, v) h = can
  Caught-says found w can (err e, v) h = inl can

  synchronise-says :
      (pipeline_id : ℕ) (batches : List (CopyBatch X)) (signals : List (Signal S D))
      (found : TableReplicationPhaseType) (w : Worker S D)
      → CanSync found
      → SyncSays found w (synchronise states links table_id pipeline_id batches signals found w)
  synchronise-says pipeline_id batches signals found w can =
      Caught-says found w can
        (synchronise states links table_id pipeline_id batches signals found w)
        ((synchronise-Caught pipeline_id batches signals found).run w tt)

  sync_from-says :
      (pipeline_id : ℕ) (batches : List (CopyBatch X)) (signals : List (Signal S D))
      (found : TableReplicationPhaseType) (w : Worker S D)
      → SyncSays found w (sync_from states links table_id pipeline_id batches signals found w)
  unfolding sync_from pure raise
  sync_from-says pipeline_id batches signals TableReplicationPhaseType.sync_done w = (tt, refl)
  sync_from-says pipeline_id batches signals TableReplicationPhaseType.ready w = (tt, refl)
  sync_from-says pipeline_id batches signals TableReplicationPhaseType.init w =
      synchronise-says pipeline_id batches signals TableReplicationPhaseType.init w tt
  sync_from-says pipeline_id batches signals TableReplicationPhaseType.data_sync w =
      synchronise-says pipeline_id batches signals TableReplicationPhaseType.data_sync w tt
  sync_from-says pipeline_id batches signals TableReplicationPhaseType.finished_copy w =
      synchronise-says pipeline_id batches signals TableReplicationPhaseType.finished_copy w tt
  sync_from-says pipeline_id batches signals found w = inr (refl, refl)

  -- A table sync that completes started in one of the phases `init`, `data_sync` and `finished_copy`, and left
  -- its worker in `catchup`, which the apply worker sets; it stops, waits or fails in its work only from
  -- these phases too. It is reported as not required only for a table that was synchronised or is ready,
  -- and as in an invalid phase with the phase that was found; then nothing was changed.
  pub start_table_sync-says :
      (pipeline_id : ℕ) (batches : List (CopyBatch X)) (signals : List (Signal S D))
      (w : Worker S D)
      → SyncSays
          (as_type w.inner.table_replication_phase)
          w
          (start_table_sync states links table_id pipeline_id batches signals w)
  unfolding start_table_sync
  start_table_sync-says pipeline_id batches signals w =
      sync_from-says pipeline_id batches signals (as_type w.inner.table_replication_phase) w
