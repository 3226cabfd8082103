-- ===== src/Pipeline/Wait.antt =====
-- etl/src/pipeline.rs: lemmas on the wait for a pipeline.
use pg_replicate.Base.{
  ◌≡◌, ◌≢◌, refl, ap, ◌↔◌, ◌⊎◌, inl, inr, some, List, [], ◌∷◌, ◌++◌, Result, ok, err, Any,
}
use pg_replicate.State.Store.{StateStore}
use pg_replicate.Workers.Base.{WorkerWaitError}
use pg_replicate.Workers.Pool.{TableSyncWorkerPool, PoolEvent, run_events}
use pg_replicate.Workers.Pool.Wait.{AllFine, wait_all-HasReturned}
use pg_replicate.Workers.Pool.Report.{AnyFailed, reported, ReportsOn, wait_all-Ended}
use pg_replicate.Pipeline.{
  PipelineError, one_or_more_workers_failed, started, Links, errors_of, pool_errors, wait_end,
  after_apply_worker, after_pool, wait,
}

-- The errors of workers that a result of the pipeline has.
abbrev pub Mentions : WorkerWaitError → Result PipelineError (Unit {0}) → Type 0
Mentions e (ok u) = ⊥
Mentions e (err (one_or_more_workers_failed errors)) = Any (λ x. x ≡ e) errors
Mentions e (err x) = ⊥

wait_end-Mentions :
    (e : WorkerWaitError) (errors : List WorkerWaitError)
    → Mentions e (wait_end errors) ↔ Any (λ x. x ≡ e) errors
unfolding wait_end
wait_end-Mentions e [] = (λ h. h, λ h. h)
wait_end-Mentions e (x ∷ errors) = (λ h. h, λ h. h)

errors-either :
    (e : WorkerWaitError) (a : Result WorkerWaitError (Unit {0})) (es : List WorkerWaitError)
    {P : Type 0}
    → (Any (λ x. x ≡ e) es → P)
    → Any (λ x. x ≡ e) (errors_of a ++ es)
    → (a ≡ err e) ⊎ P
unfolding errors_of
errors-either e (ok u) es f h = inr (f h)
errors-either e (err x) es f (inl h) = inl (ap err h)
errors-either e (err x) es f (inr h) = inr (f h)

either-errors :
    (e : WorkerWaitError) (a : Result WorkerWaitError (Unit {0})) (es : List WorkerWaitError)
    {P : Type 0}
    → (P → Any (λ x. x ≡ e) es)
    → (a ≡ err e) ⊎ P
    → Any (λ x. x ≡ e) (errors_of a ++ es)
unfolding errors_of
either-errors e (ok u) es g (inl h) = cc
either-errors e (ok u) es g (inr p) = g p
either-errors e (err x) es g (inl h) = inl cc
either-errors e (err x) es g (inr p) = inr (g p)

wait_end-ok :
    (a : Result WorkerWaitError (Unit {0})) (r : Result (List WorkerWaitError) (Unit {0}))
    → r ≢ err []
    → (wait_end (errors_of a ++ pool_errors r) ≡ ok tt) ↔ ((a ≡ ok tt) × (r ≡ ok tt))
unfolding wait_end errors_of pool_errors
wait_end-ok (ok u) (ok v) n = (λ h. (refl, refl), λ h. refl)
wait_end-ok (ok u) (err []) n = absurd (n refl)
wait_end-ok (ok u) (err (e ∷ es)) n = (λ h. cc, λ h. cc)
wait_end-ok (err x) r n = (λ h. cc, λ h. cc)

module _ {S D H J : Type 0} (states : StateStore S) (links : Links S D H)
    (join : J → Result WorkerWaitError (Unit {0})) where
  -- The shutdown signal was sent exactly if the apply worker failed.
  abbrev pub Signals : Result WorkerWaitError (Unit {0}) → D → D → Type 0
  Signals (ok u) d d' = d' ≡ d
  Signals (err e) d d' = d' ≡ (links.send_shutdown d).1

  after_apply_worker-Signals :
      (a : Result WorkerWaitError (Unit {0})) (d : D)
      → Signals a d (after_apply_worker states links a d)
  unfolding after_apply_worker
  after_apply_worker-Signals (ok u) d = refl
  after_apply_worker-Signals (err e) d = refl

  -- What a wait reports of the apply worker, which ended with `a`, and of the table sync workers in the pool
  -- that had ended.
  abbrev pub Reports :
      Result WorkerWaitError (Unit {0})
      → TableSyncWorkerPool J
      → Result PipelineError (Unit {0})
      → Type 0
  Reports a pool r =
      ((e : WorkerWaitError) → Mentions e r ↔ ((a ≡ err e) ⊎ AnyFailed join e pool.inactive))
      × ((r ≡ ok tt) ↔ ((a ≡ ok tt) × AllFine join pool.inactive))

  pool-Reports :
      (a : Result WorkerWaitError (Unit {0})) (pool : TableSyncWorkerPool J)
      (result : Result (List WorkerWaitError) (Unit {0}))
      → ReportsOn join result pool.inactive
      → Reports a pool (wait_end (errors_of a ++ pool_errors result))
  unfolding pool_errors
  pool-Reports a pool result (errors, fine, some_errors) = (
    λ e.
        let (f, g) = wait_end-Mentions e (errors_of a ++ pool_errors result) in
        let (f', g') = reported-pool_errors result e (errors e) in
        (
          λ h. errors-either e a (pool_errors result) f' (f h),
          λ h. g (either-errors e a (pool_errors result) g' h),
        ),
    let (f, g) = wait_end-ok a result some_errors in
        (λ h. ((f h).0, fine.0 (f h).1), λ h. g (h.0, fine.1 h.1)),
  )
    where
      reported-pool_errors :
          (result : Result (List WorkerWaitError) (Unit {0})) (e : WorkerWaitError) {P : Type 0}
          → Any (λ x. x ≡ e) (reported join result) ↔ P
          → Any (λ x. x ≡ e) (pool_errors result) ↔ P
      reported-pool_errors (ok u) e h = h
      reported-pool_errors (err es) e h = h

  -- Once the apply worker has ended, and no table sync worker is active after all that happens while they are
  -- waited for, waiting for a pipeline has ended. The shutdown signal was sent exactly if the apply worker
  -- failed. The result has exactly the errors of the apply worker, if it failed, and of the table sync
  -- workers that had failed when none was active any more; it is a success exactly if the apply worker
  -- and all these table sync workers ended well.
  pub wait-Ends :
      (before after : List (PoolEvent J)) (apply_worker : H) (pool : TableSyncWorkerPool J) (d : D)
      (a : Result WorkerWaitError (Unit {0}))
      → links.wait_apply_worker apply_worker ≡ some a
      → (run_events after (run_events before pool)).active ≡ []
      → (r : Result PipelineError (Unit {0})) × (d' : D) × (seen : List (PoolEvent J))
        × (rest : List (PoolEvent J)) × (wait states links join before after
              (started apply_worker pool)
              d
            ≡ some (r, d'))
        × Signals a d d'
        × (after ≡ seen ++ rest)
        × ((run_events seen (run_events before pool)).active ≡ [])
        × Reports a (run_events seen (run_events before pool)) r
  unfolding wait after_pool
  wait-Ends before after apply_worker pool d a ended idle =
      let (result, e) = wait_all-HasReturned join after (run_events before pool) idle in
      let (seen, rest, is, idle', reports) =
        wait_all-Ended join after (run_events before pool) result e in
      (
        wait_end (errors_of a ++ pool_errors result),
        after_apply_worker states links a d,
        seen,
        rest,
        rw (wait, ended, e) refl,
        after_apply_worker-Signals a d,
        is,
        idle',
        pool-Reports a (run_events seen (run_events before pool)) result reports,
      )
