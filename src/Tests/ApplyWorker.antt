-- ===== src/Tests/ApplyWorker.antt =====
-- The apply worker's hook at concrete inputs: a store that records its updates, and workers that do
-- nothing.
use pg_replicate.Base.{
  ℕ, ◌≡◌, ◌≢◌, ◌↔◌, refl, Bool, true, some, List, [], ◌∷◌, ◌++◌, ok, err, All, Any, ◌>>=◌,
}
use pg_replicate.Base.Assoc
use pg_replicate.Base.Assoc.{Map, get, contains_key}
use pg_replicate.Base.Triple.{After}
use pg_replicate.State.Phase.{TableReplicationPhase}
use pg_replicate.State.Store.{StateStore, StateStoreError}
use pg_replicate.Concurrency.Shutdown.{ShutdownResult}
use pg_replicate.Workers.TableSync.{TableSyncWorkerHandle}
use pg_replicate.Workers.Pool.{TableSyncWorkerPool}
use pg_replicate.Workers.Pool
use pg_replicate.Workers.Apply.{
  Shared, Tasks, initialize, process_syncing_tables, skip_table, should_apply_changes,
}
use pg_replicate.Workers.Apply.Starts.{active_tables}
use pg_replicate.Workers.Apply.Decide.{
  IsApplied, known_phase, should_apply_changes_iff, skip_table-Skipped,
}
use pg_replicate.Workers.Apply.Ready.{Logs, IsPassed, MarkedPart, process_syncing_tables-marks}
use pg_replicate.Workers.Apply.Initialize.{initialize-Covers}

pub record Recorded : Type 0 where
  pub phases : Map TableReplicationPhase
  pub updates : List (ℕ × TableReplicationPhase)

pub ok-ne : {x : StateStoreError} → ok (tt {0}) ≡ err x → ⊥
ok-ne e = cc

abbrev pub recorded_store : StateStore Recorded
recorded_store = record {
  get_table_replication_state = λ t s. (ok (Assoc.get s.phases t), s);
  get_table_replication_states = λ s. (ok s.phases, s);
  update_table_replication_state = λ t p s.
      (ok tt, record { phases = Assoc.insert s.phases t p; updates = s.updates ++ (t, p) ∷ [] });
  cache = λ s. s.phases;
  get_lem = λ t s. refl;
  states_lem = λ s. refl;
  update-ok = λ t p s e. refl;
  update-err = λ t p s x e. absurd (ok-ne e);
}

abbrev tasks : Tasks Recorded ℕ ℕ
tasks = record { spawn = λ t d. (t, d); wait_for_phase_type = λ t p w. (ShutdownResult.ok tt, w) }

tasks-Logs : Logs recorded_store tasks (λ s. s.updates)
tasks-Logs = record {
  updated = λ t p done. record { run = λ s e. rw e refl };
  waited = λ t p w. refl;
}

-- Table 1 is synchronised up to 100, table 2 up to 300, table 3 has not begun, and table 4 is ready.
abbrev pub phases : Map TableReplicationPhase
phases =
    (1, TableReplicationPhase.sync_done 100)
    ∷ (2, TableReplicationPhase.sync_done 300)
    ∷ (3, TableReplicationPhase.init)
    ∷ (4, TableReplicationPhase.ready)
    ∷ []

abbrev shared : Shared Recorded ℕ ℕ
shared = record { store = record { phases = phases; updates = [] }; pool = Pool.new; outside = 0 }

process_syncing_tables-marks_example :
    (marks : List (ℕ × TableReplicationPhase)) × All
      (λ mark. mark.1 ≡ TableReplicationPhase.ready)
      marks
    × ((t : ℕ)
        → Any (λ mark. mark.0 ≡ t) marks
          ↔ ((true ≡ true) × Any (λ e. (e.0 ≡ t) × IsPassed 200 e) phases))
    × After
        (λ go_on v. (go_on ≡ true) × (v.store.updates ≡ [] ++ marks))
        (MarkedPart recorded_store tasks (λ s. s.updates) tasks-Logs [] marks)
        (process_syncing_tables recorded_store tasks 200 true shared)
process_syncing_tables-marks_example =
    process_syncing_tables-marks recorded_store tasks (λ s. s.updates) tasks-Logs 200 true shared

should_apply_changes_iff_example :
    (b : Bool) × (should_apply_changes recorded_store tasks 2 400 shared ≡ (ok b, shared))
    × ((b ≡ true) ↔ IsApplied 400 (known_phase recorded_store tasks shared 2))
should_apply_changes_iff_example = should_apply_changes_iff recorded_store tasks 2 400 shared

skipped : (skip_table recorded_store tasks 2 shared).0 ≡ ok true
unfolding skip_table ◌>>=◌ get
skipped = refl

skip_table-Skipped_example :
    (known_phase recorded_store tasks (skip_table recorded_store tasks 2 shared).1 2
      ≡ some TableReplicationPhase.skipped)
    × (get (skip_table recorded_store tasks 2 shared).1.store.phases 2
        ≡ some TableReplicationPhase.skipped)
    × ((j : ℕ)
        → 2 ≢ j
        → known_phase recorded_store tasks (skip_table recorded_store tasks 2 shared).1 j
          ≡ known_phase recorded_store tasks shared j)
skip_table-Skipped_example = skip_table-Skipped recorded_store tasks 2 shared true skipped

initialize-Covers_example :
    (v : Shared Recorded ℕ ℕ) × (initialize recorded_store tasks shared ≡ (ok tt, v))
    × All (λ e. contains_key v.pool.active e.0 ≡ true) (active_tables phases)
    × ((j : ℕ) (worker : TableSyncWorkerHandle ℕ)
        → get [] j ≡ some worker
        → get v.pool.active j ≡ some worker)
    × (v.store ≡ record { phases = phases; updates = [] })
initialize-Covers_example = initialize-Covers recorded_store tasks shared
