-- ===== src/Replication.antt =====
-- src/replication: the write-ahead log, the replicas' progress and the acknowledgement of writes.
pub mod Wal
pub mod Stream
pub mod AckPolicy
mod Tests
