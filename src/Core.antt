-- ===== src/Core.antt =====
-- src/core: the storage engine.
pub mod Eviction
pub mod Entry
pub mod Store
pub mod Capacity
pub mod Coalescer
mod Tests
