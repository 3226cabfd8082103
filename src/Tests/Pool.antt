-- ===== src/Tests/Pool.antt =====
-- The worker pool and the pipeline's wait at concrete inputs: two workers, of which one fails.
use pg_replicate.Base.{
  err, ◌++◌, ℕ, ◌≡◌, ◌↔◌, ◌+◌, refl, true, none, some, List, [], ◌∷◌, Result, ok, codes,
}
use pg_replicate.Base.Assoc
use pg_replicate.State.Phase.{TableReplicationPhase}
use pg_replicate.Workers.Base.{WorkerWaitError, apply_worker_failed}
use pg_replicate.Workers.TableSync.{TableSyncWorkerHandle}
use pg_replicate.Workers.Pool.{
  TableSyncWorkerPool, TableSyncWorkerInactiveReason, PoolEvent, started, finished, run_events,
  try_wait_all, wait_all,
}
use pg_replicate.Workers.Pool.Account.{weigh, accepted_all, run_events-weigh}
use pg_replicate.Workers.Pool.Wait.{wait_all-HasReturned, try_wait_all_iff, AllFine}
use pg_replicate.Pipeline.{PipelineError, Links, wait}
use pg_replicate.Pipeline
use pg_replicate.Pipeline.Wait.{Reports, wait-Ends}
use pg_replicate.Tests.ApplyWorker.{Recorded, recorded_store}

abbrev worker : ℕ → TableSyncWorkerHandle ℕ
worker t = record {
  state = record { table_id = t; table_replication_phase = TableReplicationPhase.init };
  handle = some t;
}

abbrev join : ℕ → Result WorkerWaitError (Unit {0})
join t = ok tt

-- Tables 1 and 2 are active.
abbrev pool : TableSyncWorkerPool ℕ
pool = record {
  active = (1, worker 1) ∷ (2, worker 2) ∷ [];
  inactive = [];
  waiting = none;
  made = 0;
  permits = [];
}

-- While somebody waits, table 1 ends, fails when it is started again, and table 2 ends.
abbrev events : List (PoolEvent ℕ)
events =
    finished 1 TableSyncWorkerInactiveReason.completed
    ∷ started 1 (worker 1)
    ∷ started 1 (worker 1)
    ∷ finished 1 (TableSyncWorkerInactiveReason.errored (codes "no connection"))
    ∷ finished 2 TableSyncWorkerInactiveReason.completed
    ∷ []

events-end : (run_events events pool).active ≡ []
unfolding run_events Assoc.get Assoc.remove Assoc.insert Assoc.contains_key
events-end = refl

pool-IsUnique : Assoc.IsUnique pool.active
unfolding Assoc.contains_key
pool-IsUnique = (refl, (refl, tt))

run_events-weigh_example :
    weigh (λ t w. 1) (run_events events pool)
    ≡ weigh (λ t w. 1) pool + accepted_all (λ t w. 1) events pool
run_events-weigh_example = run_events-weigh (λ t w. 1) events pool pool-IsUnique

wait_all-HasReturned_example :
    (r : Result (List WorkerWaitError) (Unit {0})) × (wait_all join events pool ≡ some r)
wait_all-HasReturned_example = wait_all-HasReturned join events pool events-end

try_wait_all_iff_example :
    ((try_wait_all join (run_events events pool)).0 ≡ ok none)
    ↔ (((run_events events pool).active ≡ []) × AllFine join (run_events events pool).inactive)
try_wait_all_iff_example = try_wait_all_iff join (run_events events pool)

abbrev links : Links Recorded ℕ ℕ
links = record {
  publication_exists = λ name d. (ok true, d);
  get_publication_table_ids = λ name d. (ok (1 ∷ 2 ∷ []), d);
  load_table_replication_states = λ s. (ok tt, s);
  inject = λ cache d. (ok tt, d);
  load_table_schemas = λ d. (ok [], d);
  connect = λ d. (ok tt, d);
  start_apply_worker = λ cache d. (ok 0, d);
  wait_apply_worker = λ h. some (err apply_worker_failed);
  send_shutdown = λ d. (ok tt, d + 1);
}

-- Table 1 ends while the apply worker is waited for, and the rest happens afterwards.
abbrev before : List (PoolEvent ℕ)
before = finished 1 TableSyncWorkerInactiveReason.completed ∷ []

abbrev after : List (PoolEvent ℕ)
after =
    started 1 (worker 1)
    ∷ finished 1 (TableSyncWorkerInactiveReason.errored (codes "no connection"))
    ∷ finished 2 TableSyncWorkerInactiveReason.completed
    ∷ []

after-end : (run_events after (run_events before pool)).active ≡ []
unfolding run_events Assoc.get Assoc.remove Assoc.insert Assoc.contains_key
after-end = refl

wait-Ends_example :
    (r : Result PipelineError (Unit {0})) × (d : ℕ) × (seen : List (PoolEvent ℕ)) × (rest : List
      (PoolEvent ℕ))
    × (wait recorded_store links join before after (Pipeline.started 0 pool) 6 ≡ some (r, d))
    × (d ≡ 7)
    × (after ≡ seen ++ rest)
    × ((run_events seen (run_events before pool)).active ≡ [])
    × Reports recorded_store links join
        (err apply_worker_failed)
        (run_events seen (run_events before pool))
        r
wait-Ends_example =
    wait-Ends recorded_store links join before after 0 pool 6 (err apply_worker_failed) refl
      after-end
