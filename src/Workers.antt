-- ===== src/Workers.antt =====
-- etl/src/workers: the workers that replicate, and their pool.
pub mod Base
pub mod TableSync
pub mod Pool
pub mod Apply
