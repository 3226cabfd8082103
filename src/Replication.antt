-- ===== src/Replication.antt =====
-- etl/src/replication: the slots, the streams, the apply loop and the copy of a table.
pub mod Slot
pub mod Status
pub mod Apply
pub mod Common
pub mod TableSync
