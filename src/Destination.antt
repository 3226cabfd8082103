-- ===== src/Destination.antt =====
-- etl/src/destination: where the rows and the events go.
pub mod Memory
pub mod BigQuery
pub mod Columns
