-- ===== src/Concurrency/Shutdown.antt =====
-- etl/src/concurrency/shutdown.rs: the result of work that a shutdown signal may cut short.
use pg_replicate.Base.{Bool, true, false}

pub data ShutdownResult (T I : Type 0) : Type 0 where
  ok : T → ShutdownResult T I
  shutdown : I → ShutdownResult T I

unfoldable pub should_shutdown : {T I : Type 0} → ShutdownResult T I → Bool
should_shutdown (ok t) = false
should_shutdown (shutdown i) = true
