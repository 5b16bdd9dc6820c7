-- ===== src/Cluster.antt =====
-- src/cluster: which node owns a key.
pub mod Hash
pub mod HashRing
mod Tests
