-- ===== src/Server.antt =====
-- src/server: the commands of the clients.
pub mod Dispatcher
pub mod Grpc
pub mod Args
pub mod Session
pub mod Start
pub mod Listener
pub mod MetricsListener
mod Tests
