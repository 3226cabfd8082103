-- ===== src/Replication/Apply.antt =====
-- etl/src/replication/apply.rs: the apply loop, which turns the messages of logical replication into
-- events, sends them to the destination in batches, and reports to Postgres what is safe there.
pub mod Interface
pub mod State
pub mod Messages
pub mod Loop
