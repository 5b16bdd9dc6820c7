-- ===== src/Protocol.antt =====
-- src/protocol: what the clients send.
pub mod Resp
mod Tests
