-- ===== src/Workers/Pool.antt =====
-- etl/src/workers/pool.rs: the pool of table sync workers.
pub mod Wait
pub mod Account
pub mod Report
use pg_replicate.Base.{
  ℕ, suc, ◌+◌, Bool, true, false, Option, none, some, List, [], ◌∷◌, ◌++◌, Result, ok, err, Exec,
  is_empty, Text, if◌then◌else◌, ◌==◌,
}
use pg_replicate.Base.Assoc.{Map, get, insert, remove, contains_key}
use pg_replicate.Workers.Base.{WorkerWaitError, worker_silently_failed}
use pg_replicate.Workers.TableSync.{TableSyncWorkerStateInner, TableSyncWorkerHandle}

pub data TableSyncWorkerInactiveReason : Type 0 where
  completed : TableSyncWorkerInactiveReason
  errored : Text → TableSyncWorkerInactiveReason

abbrev pub Finished : Type 0 → Type 0
Finished J = TableSyncWorkerInactiveReason × TableSyncWorkerHandle J

-- A `Notify` is a number; `made` counts them, and `permits` are those that were notified.
pub record TableSyncWorkerPool (J : Type 0) : Type 0 where
  pub active : Map (TableSyncWorkerHandle J)
  pub inactive : Map (List (Finished J))
  pub waiting : Option ℕ
  pub made : ℕ
  pub permits : List ℕ

unwrap_or_default : {A : Type 0} → Option (List A) → List A
unwrap_or_default none = []
unwrap_or_default (some xs) = xs

module _ {J : Type 0} where
  abbrev pub new : TableSyncWorkerPool J
  new = record { active = []; inactive = []; waiting = none; made = 0; permits = [] }

  -- The new worker joins the pool.
  unfoldable pub add_active :
      ℕ → TableSyncWorkerHandle J → TableSyncWorkerPool J → TableSyncWorkerPool J
  unfolding insert
  add_active table_id handle pool = record pool { active = insert pool.active table_id handle }

  unfoldable pub get_active_worker_state :
      ℕ → TableSyncWorkerPool J → Option TableSyncWorkerStateInner
  unfolding get
  get_active_worker_state table_id pool = elim (get pool.active table_id) [
    | none ↦ none
    | some handle ↦ some handle.state
  ]

  -- `waiting.take()` and `notify_one`
  pub notify_waiting : Option ℕ → TableSyncWorkerPool J → TableSyncWorkerPool J
  notify_waiting none pool = pool
  notify_waiting (some waiting) pool = record pool {
    waiting = none;
    permits = waiting ∷ pool.permits;
  }

  -- `entry(table_id).or_default().push(..)`
  pub push_inactive :
      ℕ
      → TableSyncWorkerInactiveReason
      → Option (TableSyncWorkerHandle J)
      → TableSyncWorkerPool J
      → TableSyncWorkerPool J
  unfolding get insert unwrap_or_default
  push_inactive table_id reason none pool = pool
  push_inactive table_id reason (some removed_worker) pool = record pool {
    inactive =
        insert pool.inactive table_id
          (unwrap_or_default (get pool.inactive table_id) ++ (reason, removed_worker) ∷ []);
  }

  pub set_worker_finished :
      ℕ → TableSyncWorkerInactiveReason → TableSyncWorkerPool J → TableSyncWorkerPool J
  unfolding get remove notify_waiting push_inactive
  set_worker_finished table_id reason pool =
      let removed_worker = get pool.active table_id in
      push_inactive table_id reason removed_worker
        (notify_waiting pool.waiting (record pool { active = remove pool.active table_id }))

  -- `ReactiveFutureCallback` of the pool.
  pub on_complete : ℕ → TableSyncWorkerPool J → TableSyncWorkerPool J
  unfolding set_worker_finished
  on_complete id = set_worker_finished id TableSyncWorkerInactiveReason.completed

  pub on_error : ℕ → Text → TableSyncWorkerPool J → TableSyncWorkerPool J
  unfolding set_worker_finished
  on_error id error = set_worker_finished id (TableSyncWorkerInactiveReason.errored error)

  -- `join` waits for a task.
  module _ (join : J → Result WorkerWaitError (Unit {0})) where
    -- `TableSyncWorkerHandle::wait`
    pub wait : TableSyncWorkerHandle J → Result WorkerWaitError (Unit {0})
    wait worker = elim worker.handle [ none ↦ ok tt | some handle ↦ join handle ]

    -- The error of one finished worker, if it has one.
    pub wait_error : Finished J → List WorkerWaitError
    unfolding wait
    wait_error (finish, worker) = elim (wait worker) [
      | err e ↦ e ∷ []
      | ok u ↦ elim finish [ errored e ↦ worker_silently_failed e ∷ [] | completed ↦ [] ]
    ]

    pub wait_workers : List (Finished J) → List WorkerWaitError
    unfolding wait_error
    wait_workers [] = []
    wait_workers (worker ∷ workers) = wait_error worker ++ wait_workers workers

    pub wait_inactive : Map (List (Finished J)) → List WorkerWaitError
    unfolding wait_workers
    wait_inactive [] = []
    wait_inactive ((table_id, workers) ∷ inactive) = wait_workers workers ++ wait_inactive inactive

    wait_result : List WorkerWaitError → Result (List WorkerWaitError) (Option ℕ)
    wait_result [] = ok none
    wait_result (e ∷ errors) = err (e ∷ errors)

    -- The pool's own `wait_all`: a `Notify` while workers are active.
    pub try_wait_all : Exec (TableSyncWorkerPool J) (List WorkerWaitError) (Option ℕ)
    unfolding wait_inactive wait_result
    try_wait_all pool =
        if is_empty pool.active
        then (wait_result (wait_inactive pool.inactive), record pool { inactive = [] })
        else (ok (some pool.made), record pool { waiting = some pool.made; made = suc pool.made })

  -- `start` starts the worker for the table; it runs only when none is active.
  unfoldable pub start_worker :
      {W E : Type 0}
      → Exec W E (TableSyncWorkerHandle J)
      → ℕ
      → Exec (TableSyncWorkerPool J × W) E Bool
  unfolding contains_key add_active
  start_worker start table_id (pool, w) =
      if contains_key pool.active table_id
      then (ok false, (pool, w))
      else let (started, w') = start w in
        elim started [
          | ok handle ↦ (ok true, (add_active table_id handle pool, w'))
          | err e ↦ (err e, (pool, w'))
        ]

-- What happens to the pool while somebody waits for it: a worker was started, or one ended.
pub data PoolEvent (J : Type 0) : Type 0 where
  started : ℕ → TableSyncWorkerHandle J → PoolEvent J
  finished : ℕ → TableSyncWorkerInactiveReason → PoolEvent J

contains : List ℕ → ℕ → Bool
contains [] n = false
contains (m ∷ ms) n = if m == n then true else contains ms n

module _ {J : Type 0} where
  pub on_event : PoolEvent J → TableSyncWorkerPool J → TableSyncWorkerPool J
  unfolding start_worker set_worker_finished
  on_event (started table_id handle) pool =
      (start_worker {E = WorkerWaitError} (λ (u : Unit {0}). (ok handle, u)) table_id
        (pool, tt)).1.0
  on_event (finished table_id reason) pool = set_worker_finished table_id reason pool

  unfoldable pub run_events : List (PoolEvent J) → TableSyncWorkerPool J → TableSyncWorkerPool J
  unfolding on_event
  run_events [] pool = pool
  run_events (e ∷ es) pool = run_events es (on_event e pool)

  module _ (join : J → Result WorkerWaitError (Unit {0})) where
    -- `none` while the wait goes on.
    abbrev pub Waited : Type 0
    Waited = Option (Result (List WorkerWaitError) (Unit {0}))

    after_attempt :
        Result (List WorkerWaitError) (Option ℕ) × TableSyncWorkerPool J
        → (ℕ → TableSyncWorkerPool J → Waited)
        → Waited
    after_attempt (err errors, pool) wait_for = some (err errors)
    after_attempt (ok none, pool) wait_for = some (ok tt)
    after_attempt (ok (some notify), pool) wait_for = wait_for notify pool

    -- `notified().await`, and then the next turn of the loop.
    pub wait_notified : List (PoolEvent J) → ℕ → TableSyncWorkerPool J → Waited
    unfolding on_event contains try_wait_all after_attempt
    wait_notified [] notify pool = none
    wait_notified (e ∷ es) notify pool =
        let pool' = on_event e pool in
        elim (contains pool'.permits notify) [
          | true ↦ after_attempt (try_wait_all join pool') (wait_notified es)
          | false ↦ wait_notified es notify pool'
        ]

    -- The pool's `wait_all`, while the events happen.
    unfoldable pub wait_all : List (PoolEvent J) → TableSyncWorkerPool J → Waited
    unfolding try_wait_all after_attempt wait_notified
    wait_all es pool = after_attempt (try_wait_all join pool) (wait_notified es)
