-- ===== src/Runsd.antt =====
-- crates/runsd: the daemon.
pub mod Codec
pub mod Error
pub mod Config
pub mod Db
pub mod Actor
pub mod Api
pub mod Startup
