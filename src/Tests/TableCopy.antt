-- ===== src/Tests/TableCopy.antt =====
-- The copy of a table and its waits at concrete inputs: an empty source that records what is done.
use pg_replicate.Base.{ℕ, ◌≢◌, refl, none, some, List, [], ◌∷◌, ◌++◌, ok, codes}
use pg_replicate.Base.Assoc
use pg_replicate.Base.Triple.{After}
use pg_replicate.State.Phase.{TableReplicationPhase, TableReplicationPhaseType, as_type}
use pg_replicate.Concurrency.Shutdown.{ShutdownResult}
use pg_replicate.Workers.TableSync.{Worker}
use pg_replicate.Workers.TableSync.Wait.{
  Signal, paused, wait_for_phase_type, Says, wait_for_phase_type-Says,
}
use pg_replicate.Replication.TableSync.{CopyBatch, CopyLinks, copy_table, start_table_sync}
use pg_replicate.Replication.TableSync.Copy.{
  CopyStep, Logs, created, schema, rows, committed, IsUnfinished, CopyEnds, copy_table-CopyEnds,
}
use pg_replicate.Replication.TableSync.Phases.{SyncSays, start_table_sync-says}
use pg_replicate.Tests.ApplyWorker.{Recorded, recorded_store}

abbrev links : CopyLinks (List (CopyStep ℕ)) ℕ
links = record {
  delete_slot = λ name d. (ok tt, d);
  create_slot_with_transaction = λ name d. (ok 100, d ++ created name 100 ∷ []);
  get_table_schema = λ t d. (
    ok (record {
      id = t;
      name = record { schema = codes "public"; name = codes "t" };
      column_schemas = [];
    }),
    d,
  );
  add_table_schema = λ s d. d;
  write_table_schema = λ s d. (ok tt, d ++ schema s ∷ []);
  get_table_copy_stream = λ s d. (ok tt, d);
  write_table_rows = λ t rs d. (ok tt, d ++ rows rs ∷ []);
  commit = λ d. (ok tt, d ++ committed ∷ []);
  get_slot = λ name d. (ok 100, d);
}

links-Logs : Logs links (λ d. d)
links-Logs = record {
  deleted = λ name done. record { run = λ d e. e };
  created = λ name done. record { run = λ d e. rw e refl };
  described = λ t done. record { run = λ d e. e };
  cached = λ s d. refl;
  announced = λ s done. record { run = λ d e. rw e refl };
  streamed = λ s done. record { run = λ d e. e };
  written = λ t rs done. record { run = λ d e. rw e refl };
  ended = λ done. record { run = λ d e. rw e refl };
}

abbrev worker : Worker Recorded (List (CopyStep ℕ))
worker = record {
  inner = record { table_id = 5; table_replication_phase = TableReplicationPhase.init };
  store = record { phases = []; updates = [] };
  outside = [];
}

abbrev batches : List (CopyBatch ℕ)
batches =
    ShutdownResult.ok (ok (record { values = [] }) ∷ ok (record { values = [] }) ∷ [])
    ∷ ShutdownResult.ok (ok (record { values = [] }) ∷ [])
    ∷ []

none-ne : {p : TableReplicationPhase} → none ≢ some p
none-ne e = cc

worker-IsUnfinished : IsUnfinished recorded_store links (λ d. d) links-Logs 5 worker
unfolding Assoc.get
worker-IsUnfinished = (none-ne, refl)

copy_table-CopyEnds_example :
    After
      (CopyEnds recorded_store links (λ d. d) links-Logs 5 (codes "slot") batches [])
      (IsUnfinished recorded_store links (λ d. d) links-Logs 5)
      (copy_table recorded_store links 5 batches TableReplicationPhaseType.init
        (codes "slot")
        worker)
copy_table-CopyEnds_example =
    copy_table-CopyEnds recorded_store links (λ d. d) links-Logs 5 (codes "slot") batches
      TableReplicationPhaseType.init worker worker-IsUnfinished

-- The apply worker asks for the catch up during the second pause.
abbrev signals : List (Signal Recorded (List (CopyStep ℕ)))
signals =
    paused (λ w. w)
    ∷ paused (λ w. record w {
      inner = record w.inner { table_replication_phase = TableReplicationPhase.catchup 200 };
    })
    ∷ []

start_table_sync-says_example :
    SyncSays
      (as_type worker.inner.table_replication_phase)
      worker
      (start_table_sync recorded_store links 5 3 batches signals worker)
start_table_sync-says_example =
    start_table_sync-says recorded_store links 5 3 batches signals worker

wait_for_phase_type-Says_example :
    Says TableReplicationPhaseType.catchup signals worker
      (wait_for_phase_type TableReplicationPhaseType.catchup signals worker)
wait_for_phase_type-Says_example =
    wait_for_phase_type-Says TableReplicationPhaseType.catchup signals worker
