-- ===== src/Workers/Base.antt =====
-- etl/src/workers/base.rs: the types of workers, and the errors of waiting for one.
use pg_replicate.Base.{ℕ, Text}

pub data WorkerType : Type 0 where
  apply : WorkerType
  table_sync : ℕ → WorkerType

-- The errors carry only what the source branches on or what names the case.
pub data WorkerWaitError : Type 0 where
  worker_panicked apply_worker_failed table_sync_worker_failed : WorkerWaitError
  worker_silently_failed : Text → WorkerWaitError
