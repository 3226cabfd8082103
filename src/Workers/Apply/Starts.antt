-- ===== src/Workers/Apply/Starts.antt =====
-- etl/src/workers/apply.rs: lemmas on what is read from the state store, and on the start of a table sync
-- worker.
use pg_replicate.Base.{
  ℕ, ◌≡◌, refl, ap, inl, inr, Bool, true, false, Bool-cases, none, some, Result, ok, err,
  Option-cases, ◌>>=◌, raise, pure, continue,
}
use pg_replicate.Base.Assoc.{Map, get, contains_key, retain}
use pg_replicate.State.Phase.{TableReplicationPhase}
use pg_replicate.State.Store.{StateStore}
use pg_replicate.Replication.Apply.Interface.{ApplyLoopError}
use pg_replicate.Replication.Common.{get_table_replication_states, is_wanted}
use pg_replicate.Workers.TableSync.{TableSyncWorkerHandle}
use pg_replicate.Workers.TableSync.Start.{
  TableSyncWorkerError, start, load_state, spawn_worker, replication_state_missing,
}
use pg_replicate.Workers.Pool.{TableSyncWorkerPool, add_active, start_worker}
use pg_replicate.Workers.Apply.{Shared, Tasks, start_table_sync_worker}

abbrev pub active_tables : Map TableReplicationPhase → Map TableReplicationPhase
active_tables = retain (is_wanted false)

pub get_states-lem :
    {S : Type 0} (states : StateStore S) (s : S)
    → get_table_replication_states states false s ≡ (ok (active_tables (states.cache s)), s)
unfolding get_table_replication_states ◌>>=◌ continue pure
get_states-lem states s = rw (states.states_lem s) refl

module _ {S J D : Type 0} (states : StateStore S) (tasks : Tasks S J D) where
  -- A worker for the table in a phase, with its task.
  abbrev pub new_worker : ℕ → TableReplicationPhase → D → TableSyncWorkerHandle J
  new_worker t phase d = record {
    state = record { table_id = t; table_replication_phase = phase };
    handle = some (tasks.spawn t d).0;
  }

  abbrev pub with_worker : ℕ → TableReplicationPhase → Shared S J D → Shared S J D
  with_worker t phase w = record w {
    pool = add_active t (new_worker t phase w.outside) w.pool;
    outside = (tasks.spawn t w.outside).1;
  }

  start-missing :
      (t : ℕ) (s : S) (d : D)
      → get (states.cache s) t ≡ none
      → start states tasks.spawn t (s, d) ≡ (err (replication_state_missing t), (s, d))
  unfolding start load_state ◌>>=◌ raise continue
  start-missing t s d e = rw (states.get_lem t s, e) refl

  start-found :
      (t : ℕ) (s : S) (d : D) (phase : TableReplicationPhase)
      → get (states.cache s) t ≡ some phase
      → start states tasks.spawn t (s, d) ≡ (ok (new_worker t phase d), (s, (tasks.spawn t d).1))
  unfolding start load_state spawn_worker ◌>>=◌ continue
  start-found t s d phase e = rw (states.get_lem t s, e) refl

  abbrev shared :
      Result TableSyncWorkerError Bool × (TableSyncWorkerPool J × (S × D))
      → Result ApplyLoopError (Unit {0}) × Shared S J D
  shared (r, (pool, (store, outside))) = (
    elim r [ ok started ↦ ok tt | err e ↦ err ApplyLoopError.hook ],
    record { store = store; pool = pool; outside = outside },
  )

  abbrev after_start :
      ℕ
      → TableSyncWorkerPool J
      → Result TableSyncWorkerError (TableSyncWorkerHandle J) × (S × D)
      → Result TableSyncWorkerError Bool × (TableSyncWorkerPool J × (S × D))
  after_start t pool (r, w') = elim r [
    | ok handle ↦ (ok true, (add_active t handle pool, w'))
    | err e ↦ (err e, (pool, w'))
  ]

  start_worker-missing :
      (t : ℕ) (w : Shared S J D)
      → contains_key w.pool.active t ≡ false
      → get (states.cache w.store) t ≡ none
      → start_worker (start states tasks.spawn t) t (w.pool, (w.store, w.outside))
        ≡ (err (replication_state_missing t), (w.pool, (w.store, w.outside)))
  unfolding start_worker
  start_worker-missing t w e unknown =
      rw e (ap (after_start t w.pool) (start-missing t w.store w.outside unknown))

  start_worker-found :
      (t : ℕ) (w : Shared S J D) (phase : TableReplicationPhase)
      → contains_key w.pool.active t ≡ false
      → get (states.cache w.store) t ≡ some phase
      → start_worker (start states tasks.spawn t) t (w.pool, (w.store, w.outside)) ≡ (
        ok true,
        (
          add_active t (new_worker t phase w.outside) w.pool,
          (w.store, (tasks.spawn t w.outside).1),
        ),
      )
  unfolding start_worker
  start_worker-found t w phase e found =
      rw e (ap (after_start t w.pool) (start-found t w.store w.outside phase found))

  pub start-active :
      (t : ℕ) (w : Shared S J D)
      → contains_key w.pool.active t ≡ true
      → start_table_sync_worker states tasks t w ≡ (ok tt, w)
  unfolding start_table_sync_worker start_worker
  start-active t w e = rw e refl

  pub start-unknown :
      (t : ℕ) (w : Shared S J D)
      → contains_key w.pool.active t ≡ false
      → get (states.cache w.store) t ≡ none
      → start_table_sync_worker states tasks t w ≡ (err ApplyLoopError.hook, w)
  unfolding start_table_sync_worker
  start-unknown t w e unknown = ap shared (start_worker-missing t w e unknown)

  pub start-new :
      (t : ℕ) (w : Shared S J D) (phase : TableReplicationPhase)
      → contains_key w.pool.active t ≡ false
      → get (states.cache w.store) t ≡ some phase
      → start_table_sync_worker states tasks t w ≡ (ok tt, with_worker t phase w)
  unfolding start_table_sync_worker
  start-new t w phase e found = ap shared (start_worker-found t w phase e found)

  -- The store is only read.
  pub start-store :
      (t : ℕ) (w : Shared S J D) → (start_table_sync_worker states tasks t w).1.store ≡ w.store
  start-store t w = elim (Bool-cases (contains_key w.pool.active t)) [
    | inl e ↦ rw (start-active t w e) refl
    | inr e ↦ elim (Option-cases (get (states.cache w.store) t)) [
      | inl unknown ↦ rw (start-unknown t w e unknown) refl
      | inr (phase, found) ↦ rw (start-new t w phase e found) refl
    ]
  ]
