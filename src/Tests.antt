-- ===== src/Tests.antt =====
-- The theorems at concrete inputs.
mod Fixtures
mod Conversions
mod Replication
mod Stores
mod Workers
mod ApplyWorker
mod TableCopy
mod Pool
mod Concurrency
mod Destination
mod Encoding
