-- ===== src/Concurrency.antt =====
-- etl/src/concurrency: shutdown signals, batched streams, and futures that report how they end.
pub mod Shutdown
pub mod Stream
pub mod Future
use pg_replicate.Base.{ℕ}

-- `std::task::Poll`
pub data Poll (A : Type 0) : Type 0 where
  ready : A → Poll A
  pending : Poll A
