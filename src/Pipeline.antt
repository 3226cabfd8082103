-- ===== src/Pipeline.antt =====
-- etl/src/pipeline.rs: the pipeline, which sets the tables up, starts the workers and waits for them.
pub mod States
pub mod Wait
use pg_replicate.Base.{
  ℕ, Bool, true, false, not, Option, none, some, List, [], ◌∷◌, ◌++◌, Result, ok, err, Exec, ◌>>=◌,
  ◌>>◌, pure, raise, lift, gets, modify, continue, if◌then◌else◌, Text,
}
use pg_replicate.Base.Assoc.{Map, contains_key}
use pg_replicate.State.Phase.{TableReplicationPhase}
use pg_replicate.State.Store.{StateStore, StateStoreError}
use pg_replicate.Schema.{TableSchema}
use pg_replicate.Schema.Cache.{SchemaCache, add_table_schemas}
use pg_replicate.Schema.Cache
use pg_replicate.Workers.Base.{WorkerWaitError}
use pg_replicate.Workers.Pool.{TableSyncWorkerPool, PoolEvent, run_events, wait_all}
use pg_replicate.Workers.Pool

-- The errors carry only what the source branches on or what names the case.
pub data PipelineError : Type 0 where
  missing_publication : Text → PipelineError
  pg_replication destination worker shutdown_failed : PipelineError
  state_store : StateStoreError → PipelineError
  one_or_more_workers_failed : List WorkerWaitError → PipelineError

pub record PipelineWorld (S D : Type 0) : Type 0 where
  pub store : S
  pub outside : D

abbrev pub Pipe : Type 0 → Type 0 → Type 0 → Type 0
Pipe S D A = Exec (PipelineWorld S D) PipelineError A

-- What the pipeline calls: the client, the destination, the store's load and the apply worker, whose handle
-- is an `H`.
pub record Links (S D H : Type 0) : Type 0 where
  pub publication_exists : Text → Exec D PipelineError Bool
  pub get_publication_table_ids : Text → Exec D PipelineError (List ℕ)
  pub load_table_replication_states : Exec S StateStoreError (Unit {0})
  pub inject : SchemaCache → Exec D PipelineError (Unit {0})
  pub load_table_schemas : Exec D PipelineError (List TableSchema)
  pub connect : Exec D PipelineError (Unit {0})
  pub start_apply_worker : SchemaCache → Exec D PipelineError H
  -- `none` while the apply worker runs
  pub wait_apply_worker : H → Option (Result WorkerWaitError (Unit {0}))
  -- the sending of the shutdown signal, which may fail
  pub send_shutdown : Exec D (Unit {0}) (Unit {0})

pub data PipelineWorkers (H J : Type 0) : Type 0 where
  not_started : PipelineWorkers H J
  started : H → TableSyncWorkerPool J → PipelineWorkers H J

store_error : {A : Type 0} → Result StateStoreError A → Result PipelineError A
store_error (ok a) = ok a
store_error (err e) = err (state_store e)

errors_of : Result WorkerWaitError (Unit {0}) → List WorkerWaitError
errors_of (ok u) = []
errors_of (err e) = e ∷ []

pool_errors : Result (List WorkerWaitError) (Unit {0}) → List WorkerWaitError
pool_errors (ok u) = []
pool_errors (err es) = es

wait_end : List WorkerWaitError → Result PipelineError (Unit {0})
wait_end [] = ok tt
wait_end (e ∷ errors) = err (one_or_more_workers_failed (e ∷ errors))

module _ {S D : Type 0} where
  pub on_store : {A : Type 0} → Exec S StateStoreError A → Pipe S D A
  unfolding store_error
  on_store op w = let (r, s) = op w.store in (store_error r, record w { store = s })

  pub on_outside : {A : Type 0} → Exec D PipelineError A → Pipe S D A
  on_outside op w = let (r, d) = op w.outside in (r, record w { outside = d })

module _ {S D H : Type 0} (states : StateStore S) (links : Links S D H) where
  pub add_state : Bool → ℕ → Pipe S D (Unit {0})
  unfolding on_store
  add_state true table_id = pure tt
  add_state false table_id =
      on_store (states.update_table_replication_state table_id TableReplicationPhase.init)

  -- The tables of the publication that have no state begin in `init`.
  pub add_states : Map TableReplicationPhase → List ℕ → Pipe S D (Unit {0})
  unfolding add_state contains_key
  add_states known [] = pure tt
  add_states known (table_id ∷ table_ids) = do
    add_state (contains_key known table_id) table_id
    add_states known table_ids

  pub load_and_add : List ℕ → Pipe S D (Unit {0})
  unfolding on_store add_states
  load_and_add table_ids = do
    on_store links.load_table_replication_states
    known ← on_store states.get_table_replication_states
    add_states known table_ids

  pub initialize_table_states : Text → Pipe S D (Unit {0})
  unfolding on_outside load_and_add
  initialize_table_states publication_name = do
    exists ← on_outside (links.publication_exists publication_name)
    if exists then pure tt else raise (missing_publication publication_name)
    table_ids ← on_outside (links.get_publication_table_ids publication_name)
    load_and_add table_ids

  -- The schemas that the destination has.
  prepare_schema_cache : SchemaCache → Pipe S D SchemaCache
  unfolding on_outside add_table_schemas
  prepare_schema_cache schema_cache = do
    table_schemas ← on_outside links.load_table_schemas
    pure (add_table_schemas schema_cache table_schemas)

  pub start : {J : Type 0} → Text → Pipe S D (PipelineWorkers H J)
  unfolding on_outside prepare_schema_cache initialize_table_states
  start publication_name = do
    on_outside (links.inject Cache.new)
    schema_cache ← prepare_schema_cache Cache.new
    on_outside links.connect
    initialize_table_states publication_name
    apply_worker ← on_outside (links.start_apply_worker schema_cache)
    pure (started apply_worker Pool.new)

  -- An apply worker that failed makes the pipeline send the shutdown signal; that it could not be sent is
  -- logged only.
  after_apply_worker : Result WorkerWaitError (Unit {0}) → D → D
  after_apply_worker (ok u) d = d
  after_apply_worker (err e) d = (links.send_shutdown d).1

  abbrev pub Waited : Type 0
  Waited = Option (Result PipelineError (Unit {0}) × D)

  after_pool :
      Result WorkerWaitError (Unit {0})
      → Option (Result (List WorkerWaitError) (Unit {0}))
      → D
      → Waited
  unfolding errors_of pool_errors wait_end
  after_pool apply_worker_result none d = none
  after_pool apply_worker_result (some result) d =
      some (wait_end (errors_of apply_worker_result ++ pool_errors result), d)

  -- The wait for the apply worker and then for the pool, to which `before` and then `after` happen
  -- meanwhile; `none` while one of them goes on.
  pub wait :
      {J : Type 0}
      → (J → Result WorkerWaitError (Unit {0}))
      → List (PoolEvent J)
      → List (PoolEvent J)
      → PipelineWorkers H J
      → D
      → Waited
  unfolding wait_all run_events after_apply_worker after_pool
  wait join before after not_started d = some (ok tt, d)
  wait join before after (started apply_worker pool) d =
      elim (links.wait_apply_worker apply_worker) [
        | none ↦ none
        | some apply_worker_result ↦
            after_pool apply_worker_result (wait_all join after (run_events before pool))
              (after_apply_worker apply_worker_result d)
      ]

  pub shutdown : Exec D PipelineError (Unit {0})
  shutdown d =
      let (r, d') = links.send_shutdown d in
      (elim r [ ok u ↦ ok tt | err e ↦ err shutdown_failed ], d')

  pub shutdown_and_wait :
      {J : Type 0}
      → (J → Result WorkerWaitError (Unit {0}))
      → List (PoolEvent J)
      → List (PoolEvent J)
      → PipelineWorkers H J
      → D
      → Waited
  unfolding shutdown wait
  shutdown_and_wait join before after workers d =
      let (r, d') = shutdown d in
      elim r [ ok u ↦ wait join before after workers d' | err e ↦ some (err e, d') ]
