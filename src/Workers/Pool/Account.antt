-- ===== src/Workers/Pool/Account.antt =====
-- etl/src/workers/pool.rs: counting the handles in the pool.
use pg_replicate.Base.{
  ℕ, ◌+◌, ◌≡◌, refl, false, Option, none, some, List, [], ◌∷◌, ◌++◌, arith, inl, inr, Bool-cases,
  if-elim, if◌then◌else◌,
}
use pg_replicate.Base.Assoc.{
  get, remove, sum_of, sum_at, sum_of-insert, sum_of-remove, sum_at-absent, IsUnique,
  insert-IsUnique, remove-IsUnique, contains_key,
}
use pg_replicate.Workers.TableSync.{TableSyncWorkerHandle}
use pg_replicate.Workers.Pool.{
  TableSyncWorkerPool, TableSyncWorkerInactiveReason, Finished, add_active, notify_waiting,
  push_inactive, set_worker_finished, unwrap_or_default, start_worker, PoolEvent, started, finished,
  on_event, run_events,
}

module _ {J : Type 0} where
  pub on_event-started :
      (t : ℕ) (worker : TableSyncWorkerHandle J) (pool : TableSyncWorkerPool J)
      → on_event (started t worker) pool
        ≡ (if contains_key pool.active t then pool else add_active t worker pool)
  unfolding on_event start_worker
  on_event-started t worker pool = elim (Bool-cases (contains_key pool.active t)) [
    | inl e ↦ rw (on_event, start_worker, e) refl
    | inr e ↦ rw (on_event, start_worker, e) refl
  ]

  pub push_inactive-active :
      (t : ℕ) (reason : TableSyncWorkerInactiveReason) (o : Option (TableSyncWorkerHandle J))
      (n : Option ℕ) (pool : TableSyncWorkerPool J)
      → (push_inactive t reason o (notify_waiting n pool)).active ≡ pool.active
  unfolding push_inactive notify_waiting
  push_inactive-active t reason none none pool = refl
  push_inactive-active t reason none (some n) pool = refl
  push_inactive-active t reason (some w) none pool = refl
  push_inactive-active t reason (some w) (some n) pool = refl

  pub on_event-IsUnique :
      (e : PoolEvent J) (pool : TableSyncWorkerPool J)
      → IsUnique pool.active
      → IsUnique (on_event e pool).active
  unfolding on_event add_active set_worker_finished
  on_event-IsUnique (started t worker) pool u = rw (on_event-started t worker pool) (
      if-elim (λ p. IsUnique p.active) (contains_key pool.active t) pool _ (λ e. u)
        λ e. insert-IsUnique pool.active t worker u)
  on_event-IsUnique (finished t reason) pool u =
      rw
        (push_inactive-active t reason (get pool.active t) pool.waiting
          (record pool { active = remove pool.active t }))
        (remove-IsUnique pool.active t u)

module _ {J : Type 0} (weight : ℕ → TableSyncWorkerHandle J → ℕ) where
  pub weigh_finished : ℕ → List (Finished J) → ℕ
  weigh_finished table_id [] = 0
  weigh_finished table_id ((reason, worker) ∷ workers) =
      weight table_id worker + weigh_finished table_id workers

  -- The weight of all the handles in the pool, active or not.
  pub weigh : TableSyncWorkerPool J → ℕ
  unfolding sum_of
  weigh pool = sum_of weight pool.active + sum_of weigh_finished pool.inactive

  weigh_finished-append :
      (t : ℕ) (xs : List (Finished J)) (reason : TableSyncWorkerInactiveReason)
      (worker : TableSyncWorkerHandle J)
      → weigh_finished t (xs ++ (reason, worker) ∷ []) ≡ weigh_finished t xs + weight t worker
  unfolding weigh_finished
  weigh_finished-append t [] reason worker = omega arith
  weigh_finished-append t (x ∷ xs) reason worker =
      omega (arith, weigh_finished-append t xs reason worker)

  weigh_finished-default :
      (t : ℕ) (o : Option (List (Finished J)))
      → weigh_finished t (unwrap_or_default o) ≡ sum_at weigh_finished t o
  unfolding weigh_finished unwrap_or_default
  weigh_finished-default t none = refl
  weigh_finished-default t (some xs) = refl

  push_inactive-weigh :
      (t : ℕ) (reason : TableSyncWorkerInactiveReason) (o : Option (TableSyncWorkerHandle J))
      (pool : TableSyncWorkerPool J)
      → weigh (push_inactive t reason o pool) ≡ weigh pool + sum_at weight t o
  unfolding weigh push_inactive
  push_inactive-weigh t reason none pool = omega arith
  push_inactive-weigh t reason (some worker) pool = omega (
    arith,
    weigh_finished-append t (unwrap_or_default (get pool.inactive t)) reason worker,
    weigh_finished-default t (get pool.inactive t),
    sum_of-insert weigh_finished pool.inactive t
        (unwrap_or_default (get pool.inactive t) ++ (reason, worker) ∷ []),
  )

  notify_waiting-weigh :
      (o : Option ℕ) (pool : TableSyncWorkerPool J) → weigh (notify_waiting o pool) ≡ weigh pool
  unfolding weigh notify_waiting
  notify_waiting-weigh none pool = refl
  notify_waiting-weigh (some n) pool = refl

  pub set_worker_finished-weigh :
      (t : ℕ) (reason : TableSyncWorkerInactiveReason) (pool : TableSyncWorkerPool J)
      → IsUnique pool.active
      → weigh (set_worker_finished t reason pool) ≡ weigh pool
  unfolding set_worker_finished weigh
  set_worker_finished-weigh t reason pool u = omega (
    arith,
    push_inactive-weigh t reason (get pool.active t)
        (notify_waiting pool.waiting (record pool { active = remove pool.active t })),
    notify_waiting-weigh pool.waiting (record pool { active = remove pool.active t }),
    sum_of-remove weight pool.active t u,
  )

  -- What a start adds: the new worker, unless the table has an active one.
  pub accepted : ℕ → TableSyncWorkerHandle J → TableSyncWorkerPool J → ℕ
  accepted t worker pool = if contains_key pool.active t then 0 else weight t worker

  pub accepted_all : List (PoolEvent J) → TableSyncWorkerPool J → ℕ
  unfolding accepted
  accepted_all [] pool = 0
  accepted_all (started t worker ∷ es) pool =
      accepted t worker pool + accepted_all es (on_event (started t worker) pool)
  accepted_all (finished t reason ∷ es) pool = accepted_all es (on_event (finished t reason) pool)

  add_active-weigh :
      (t : ℕ) (worker : TableSyncWorkerHandle J) (pool : TableSyncWorkerPool J)
      → contains_key pool.active t ≡ false
      → weigh (add_active t worker pool) ≡ weigh pool + weight t worker
  unfolding weigh add_active
  add_active-weigh t worker pool new =
      omega
        (arith, sum_of-insert weight pool.active t worker, sum_at-absent weight pool.active t new)

  started-weigh :
      (t : ℕ) (worker : TableSyncWorkerHandle J) (pool : TableSyncWorkerPool J)
      → weigh (on_event (started t worker) pool) ≡ weigh pool + accepted t worker pool
  unfolding accepted
  started-weigh t worker pool = elim (Bool-cases (contains_key pool.active t)) [
    | inl e ↦ rw (on_event-started t worker pool, e) (omega arith)
    | inr e ↦ rw (on_event-started t worker pool, e) (add_active-weigh t worker pool e)
  ]

  finished-weigh :
      (t : ℕ) (reason : TableSyncWorkerInactiveReason) (pool : TableSyncWorkerPool J)
      → IsUnique pool.active
      → weigh (on_event (finished t reason) pool) ≡ weigh pool
  unfolding on_event
  finished-weigh t reason pool u = set_worker_finished-weigh t reason pool u

  -- Whatever is started and however it ends, no handle is lost or kept twice: what is counted over all the
  -- handles in the pool, active or not, grows by the workers that were accepted and by nothing else.
  pub run_events-weigh :
      (es : List (PoolEvent J)) (pool : TableSyncWorkerPool J)
      → IsUnique pool.active
      → weigh (run_events es pool) ≡ weigh pool + accepted_all es pool
  unfolding run_events accepted_all
  run_events-weigh [] pool u = omega arith
  run_events-weigh (started t worker ∷ es) pool u = omega (
    arith,
    run_events-weigh es (on_event (started t worker) pool)
        (on_event-IsUnique (started t worker) pool u),
    started-weigh t worker pool,
  )
  run_events-weigh (finished t reason ∷ es) pool u = omega (
    arith,
    run_events-weigh es (on_event (finished t reason) pool)
        (on_event-IsUnique (finished t reason) pool u),
    finished-weigh t reason pool u,
  )
