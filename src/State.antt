-- ===== src/State.antt =====
-- etl/src/state: the replication phases of a table, and the stores that keep them.
pub mod Phase
pub mod Store
