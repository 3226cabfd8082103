-- ===== src/Tests/Workers.antt =====
-- The table sync worker at concrete inputs.
use pg_replicate.Base.{ℕ, ◌≡◌, refl, none, some, inl, inr, List, [], ◌++◌, ok, codes}
use pg_replicate.Base.Assoc
use pg_replicate.Schema.Cache
use pg_replicate.State.Phase.{TableReplicationPhase}
use pg_replicate.State.Store.Memory.{MemoryStateStore, new}
use pg_replicate.State.Store.Contract.{memory_store}
use pg_replicate.Conversions.Event.{Event}
use pg_replicate.Replication.Apply.Loop.{start_apply_loop}
use pg_replicate.Workers.TableSync.{Worker, Outside, surroundings}
use pg_replicate.Workers.TableSync.Done.{IsDoneSafely}
use pg_replicate.Workers.TableSync.Loop.{Logs, start_apply_loop-IsDoneSafely}
use pg_replicate.Tests.Fixtures.{ext}
use pg_replicate.Tests.Replication.{batch, inputs}

-- A destination that takes everything.
abbrev rest : Outside (List (Event ℕ)) ℕ
rest = record {
  ext = ext;
  link = record {
    now = λ d. (0, d);
    epoch_elapsed = λ d. (ok 0, d);
    standby_status_update = λ write flush apply at d. (ok tt, d);
  };
  schema_cache = λ d. Cache.new;
  write_events = λ es d. (ok tt, d ++ es);
  start_logical_replication = λ publication slot lsn d. (ok tt, d);
}

rest-Logs : Logs rest (λ d. d)
rest-Logs = record {
  written = λ es done. record { run = λ d e. rw e refl };
  timed = λ d. refl;
  stamped = λ d. refl;
  reported = λ write flush apply at d. refl;
  started = λ publication slot lsn d. refl;
}

-- A worker that is to catch up to 205.
abbrev worker : Worker MemoryStateStore (List (Event ℕ))
worker = record {
  inner = record { table_id = 5; table_replication_phase = TableReplicationPhase.catchup 205 };
  store = new;
  outside = [];
}

catchup-ne : {lsn : ℕ} → TableReplicationPhase.catchup 205 ≡ TableReplicationPhase.sync_done lsn → ⊥
catchup-ne e = cc

none-ne : {p : TableReplicationPhase} → none ≡ some p → ⊥
none-ne e = cc

worker-IsDoneSafely : IsDoneSafely memory_store 100 (λ d. d) worker
unfolding new memory_store Assoc.get
worker-IsDoneSafely lsn (inl e) = absurd (catchup-ne e)
worker-IsDoneSafely lsn (inr e) = absurd (none-ne e)

start_apply_loop-IsDoneSafely_example :
    IsDoneSafely memory_store 100
      (λ d. d)
      (start_apply_loop
        (surroundings memory_store 5 rest)
        3
        100
        (codes "pub")
        batch
        inputs
        worker).1
start_apply_loop-IsDoneSafely_example =
    start_apply_loop-IsDoneSafely memory_store 100 (λ d. d) rest rest-Logs 5 3 (codes "pub") batch
      inputs worker worker-IsDoneSafely
