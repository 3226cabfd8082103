-- ===== src/Workers/Pool/Wait.antt =====
-- etl/src/workers/pool.rs: lemmas on the waits for the pool.
use pg_replicate.Base.{
  ℕ, ◌≡◌, refl, sym, ap, ◌∙◌, Bool, true, false, Option, none, some, List, [], ◌∷◌, ◌++◌, Result,
  ok, err, arith, ◌⊎◌, inl, inr, Bool-cases, if-elim, if◌then◌else◌, ◌↔◌, All, is_empty,
}
use pg_replicate.Base.Assoc.{Map, insert, remove, contains_key}
use pg_replicate.Workers.Base.{WorkerWaitError, worker_silently_failed}
use pg_replicate.Workers.Pool.Account.{on_event-started, push_inactive-active}
use pg_replicate.Workers.TableSync.{TableSyncWorkerHandle}
use pg_replicate.Workers.Pool.{
  TableSyncWorkerPool, TableSyncWorkerInactiveReason, Finished, add_active, notify_waiting,
  push_inactive, set_worker_finished, PoolEvent, started, finished, contains, on_event, run_events,
  try_wait_all, after_attempt, wait_result, wait_inactive, wait_workers, wait_error, wait,
  completed, errored, Waited, wait_notified, wait_all,
}

insert-ne : {V : Type 0} (m : Map V) (k : ℕ) (v : V) → is_empty (insert m k v) ≡ false
unfolding insert
insert-ne [] k v = refl
insert-ne ((j, w) ∷ m) k v = ground arith

module _ {J : Type 0} where
  -- While somebody waits, the pool knows whom to notify, and there is an active worker.
  abbrev IsAwaited : ℕ → TableSyncWorkerPool J → Type 0
  IsAwaited notify pool = (pool.waiting ≡ some notify) × (is_empty pool.active ≡ false)

  push_inactive-permits :
      (t : ℕ) (reason : TableSyncWorkerInactiveReason) (o : Option (TableSyncWorkerHandle J))
      (waiting : Option ℕ) (notify : ℕ) (pool : TableSyncWorkerPool J)
      → waiting ≡ some notify
      → contains (push_inactive t reason o (notify_waiting waiting pool)).permits notify ≡ true
  unfolding push_inactive notify_waiting contains
  push_inactive-permits t reason o none notify pool e = absurd (none-ne e)
    where
      none-ne : none ≡ some notify → ⊥
      none-ne e = cc
  push_inactive-permits t reason none (some n) notify pool e = ground arith
  push_inactive-permits t reason (some w) (some n) notify pool e = ground arith

  -- An event keeps that, or gives the permit.
  on_event-IsAwaited :
      (e : PoolEvent J) (notify : ℕ) (pool : TableSyncWorkerPool J)
      → IsAwaited notify pool
      → (contains (on_event e pool).permits notify ≡ true) ⊎ IsAwaited notify (on_event e pool)
  unfolding on_event add_active set_worker_finished
  on_event-IsAwaited (started t worker) notify pool h = rw (on_event-started t worker pool) (
      if-elim (λ p. (contains p.permits notify ≡ true) ⊎ IsAwaited notify p)
        (contains_key pool.active t) pool _ (λ e. inr h)
        λ e. inr (h.0, insert-ne pool.active t worker))
  on_event-IsAwaited (finished t reason) notify pool (known, busy) =
      inl (push_inactive-permits t reason _ pool.waiting notify _ known)

  -- Which workers are active depends on the events and on which were active.
  pub on_event-active :
      (e : PoolEvent J) (p q : TableSyncWorkerPool J)
      → p.active ≡ q.active
      → (on_event e p).active ≡ (on_event e q).active
  unfolding on_event add_active set_worker_finished
  on_event-active (started t worker) p q same =
      rw (on_event-started t worker p, on_event-started t worker q, same)
        (elim (Bool-cases (contains_key q.active t)) [ inl e ↦ rw e refl | inr e ↦ rw e refl ])
  on_event-active (finished t reason) p q same =
      push_inactive-active t reason _ p.waiting _
      ∙ ap (λ m. remove m t) same
      ∙ sym (push_inactive-active t reason _ q.waiting _)

  run_events-active :
      (es : List (PoolEvent J)) (p q : TableSyncWorkerPool J)
      → p.active ≡ q.active
      → (run_events es p).active ≡ (run_events es q).active
  unfolding run_events
  run_events-active [] p q same = same
  run_events-active (e ∷ es) p q same = run_events-active es _ _ (on_event-active e p q same)

  module _ (join : J → Result WorkerWaitError (Unit {0})) where
    abbrev HasReturned : Waited join → Type 0
    HasReturned o = (r : Result (List WorkerWaitError) (Unit {0})) × (o ≡ some r)

    after_attempt-done :
        (errors : List WorkerWaitError) (pool : TableSyncWorkerPool J)
        (k : ℕ → TableSyncWorkerPool J → Waited join)
        → HasReturned (after_attempt join (wait_result join errors, pool) k)
    unfolding after_attempt wait_result
    after_attempt-done [] pool k = (ok tt, refl)
    after_attempt-done (e ∷ errors) pool k = (err (e ∷ errors), refl)

    attempt-HasReturned :
        (pool : TableSyncWorkerPool J) (k : ℕ → TableSyncWorkerPool J → Waited join)
        → ((notify : ℕ) (p : TableSyncWorkerPool J)
            → IsAwaited notify p
            → p.active ≡ pool.active
            → HasReturned (k notify p))
        → HasReturned (after_attempt join (try_wait_all join pool) k)
    unfolding try_wait_all after_attempt
    attempt-HasReturned pool k go = elim (Bool-cases (is_empty pool.active)) [
      | inl e ↦ rw e (after_attempt-done _ _ k)
      | inr e ↦ rw e (go pool.made _ (refl, e) refl)
    ]

    wait_notified-HasReturned :
        (es : List (PoolEvent J)) (notify : ℕ) (pool : TableSyncWorkerPool J)
        → IsAwaited notify pool
        → is_empty (run_events es pool).active ≡ true
        → HasReturned (wait_notified join es notify pool)
    unfolding wait_notified run_events
    wait_notified-HasReturned [] notify pool (known, busy) h = absurd (true-ne (sym h ∙ busy))
      where
        true-ne : true ≡ false → ⊥
        true-ne e = cc
    wait_notified-HasReturned (e ∷ es) notify pool awaited h =
        elim (Bool-cases (contains (on_event e pool).permits notify)) [
          | inl given ↦
              rw (wait_notified, given)
                (attempt-HasReturned (on_event e pool) (wait_notified join es) λ n p awaited' same.
                  wait_notified-HasReturned es n p awaited'
                    (ap is_empty (run_events-active es p (on_event e pool) same) ∙ h))
          | inr quiet ↦
              rw (wait_notified, quiet)
                (wait_notified-HasReturned es notify (on_event e pool)
                  (still quiet (on_event-IsAwaited e notify pool awaited)) h)
        ]
      where
        still : {b : Bool} {P : Type 0} → b ≡ false → (b ≡ true) ⊎ P → P
        still quiet (inl given) = cc
        still quiet (inr p) = p

    -- Waiting for the pool ends once all the workers have ended: however the starts and the ends are
    -- ordered while somebody waits, if no worker is active after them, the wait has returned.
    pub wait_all-HasReturned :
        (es : List (PoolEvent J)) (pool : TableSyncWorkerPool J)
        → (run_events es pool).active ≡ []
        → (r : Result (List WorkerWaitError) (Unit {0})) × (wait_all join es pool ≡ some r)
    unfolding wait_all
    wait_all-HasReturned es pool h =
        attempt-HasReturned pool (wait_notified join es) λ notify p awaited same.
          wait_notified-HasReturned es notify p awaited
            (ap is_empty (run_events-active es p pool same ∙ h))

module _ {J : Type 0} (join : J → Result WorkerWaitError (Unit {0})) where
  -- A worker that completed, and whose task ended without an error or a panic.
  abbrev pub IsFine : Finished J → Type 0
  IsFine (finish, worker) =
      (wait join worker ≡ ok tt) × (finish ≡ TableSyncWorkerInactiveReason.completed)

  abbrev pub AllFine : Map (List (Finished J)) → Type 0
  AllFine [] = Unit
  AllFine ((table_id, workers) ∷ inactive) = All IsFine workers × AllFine inactive

  nil-append : {A : Type 0} (xs ys : List A) → (xs ++ ys ≡ []) ↔ ((xs ≡ []) × (ys ≡ []))
  nil-append [] ys = (λ e. (refl, e), λ h. h.1)
  nil-append (x ∷ xs) ys = (λ e. cc, λ h. cc)

  wait_error_iff : (w : Finished J) → (wait_error join w ≡ []) ↔ IsFine w
  unfolding wait_error
  wait_error_iff (finish, worker) = either (wait join worker) finish
    where
      either :
          (r : Result WorkerWaitError (Unit {0})) (f : TableSyncWorkerInactiveReason)
          → ((elim r [
            | err e ↦ e ∷ []
            | ok u ↦ elim f [ errored e ↦ worker_silently_failed e ∷ [] | completed ↦ [] ]
          ])
              ≡ [])
            ↔ ((r ≡ ok tt) × (f ≡ TableSyncWorkerInactiveReason.completed))
      either (ok u) completed = (λ e. (refl, refl), λ h. refl)
      either (ok u) (errored e) = (λ e. cc, λ h. cc)
      either (err e) f = (λ e. cc, λ h. cc)

  wait_workers_iff : (ws : List (Finished J)) → (wait_workers join ws ≡ []) ↔ All IsFine ws
  unfolding wait_workers
  wait_workers_iff [] = (λ e. tt, λ h. refl)
  wait_workers_iff (w ∷ ws) =
      let (split, joined) = nil-append (wait_error join w) (wait_workers join ws) in
      (
        λ e. let (a, b) = split e in ((wait_error_iff w).0 a, (wait_workers_iff ws).0 b),
        λ h. joined ((wait_error_iff w).1 h.0, (wait_workers_iff ws).1 h.1),
      )

  pub wait_inactive_iff : (m : Map (List (Finished J))) → (wait_inactive join m ≡ []) ↔ AllFine m
  unfolding wait_inactive
  wait_inactive_iff [] = (λ e. tt, λ h. refl)
  wait_inactive_iff ((t, ws) ∷ m) =
      let (split, joined) = nil-append (wait_workers join ws) (wait_inactive join m) in
      (
        λ e. let (a, b) = split e in ((wait_workers_iff ws).0 a, (wait_inactive_iff m).0 b),
        λ h. joined ((wait_workers_iff ws).1 h.0, (wait_inactive_iff m).1 h.1),
      )

  wait_result_iff :
      (errors : List WorkerWaitError) → (wait_result join errors ≡ ok none) ↔ (errors ≡ [])
  unfolding wait_result
  wait_result_iff [] = (λ e. refl, λ h. refl)
  wait_result_iff (e ∷ errors) = (λ h. cc, λ h. cc)

  attempt_iff :
      {P : Type 0} (m : Map (TableSyncWorkerHandle J))
      (r : Result (List WorkerWaitError) (Option ℕ) × TableSyncWorkerPool J) (n : ℕ)
      (q : TableSyncWorkerPool J)
      → ((r.0 ≡ ok none) ↔ P)
      → ((if is_empty m then r else (ok (some n), q)).0 ≡ ok none) ↔ ((m ≡ []) × P)
  attempt_iff [] r n q fine = (λ e. (refl, fine.0 e), λ h. fine.1 h.1)
  attempt_iff (x ∷ m) r n q fine = (λ e. cc, λ h. cc)

  -- An attempt to wait for the pool reports success exactly if no worker is active and all the workers
  -- that ended completed, with tasks that neither failed nor panicked.
  pub try_wait_all_iff :
      (pool : TableSyncWorkerPool J)
      → ((try_wait_all join pool).0 ≡ ok none) ↔ ((pool.active ≡ []) × AllFine pool.inactive)
  unfolding try_wait_all
  try_wait_all_iff pool =
      let errors = wait_inactive join pool.inactive in
      let (nil, none_left) = wait_result_iff errors in
      let (fine, silent) = wait_inactive_iff pool.inactive in
      attempt_iff pool.active _ _ _ (λ e. fine (nil e), λ h. none_left (silent h))
