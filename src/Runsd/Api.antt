-- ===== src/Runsd/Api.antt =====
-- The HTTP API of the daemon (crates/runsd/src/api).
pub mod Error
pub mod Cursor
pub mod Handlers
pub mod Routes
pub mod Health
pub mod Sse
pub mod Graphql
