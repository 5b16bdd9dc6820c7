-- ===== src/Bench.antt =====
-- src/bench/cache_bench.cpp: the parts of the benchmark that compute.
pub mod Json
pub mod Reader
pub mod Matrix
pub mod Shares
pub mod Setup
pub mod Load
pub mod Coalescing
pub mod Report
mod Tests
