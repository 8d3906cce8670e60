-- ===== src/Runs/Network.antt =====
-- The network task of the terminal client (crates/runs/src/network.rs).
pub mod Sse
pub mod Events
pub mod Reconnect
pub mod Client
pub mod Commands
