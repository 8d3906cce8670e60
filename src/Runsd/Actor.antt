-- ===== src/Runsd/Actor.antt =====
-- crates/runsd/src/actor: the actors of the daemon.
pub mod Db
pub mod World
pub mod Channels
pub mod Calc
pub mod ExternalApi
pub mod Run
pub mod Watchdog
pub mod Supervisor
