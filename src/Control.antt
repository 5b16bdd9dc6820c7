-- ===== src/Control.antt =====
-- src/control: which nodes are alive, and who leads each shard.
pub mod Heartbeat
pub mod Raft
mod Tests
