-- ===== src/Common.antt =====
-- crates/common: the domain types that the daemon and the terminal client share.
pub mod CalcStatus
pub mod RunStatus
pub mod ErrorKind
pub mod Json
pub mod Model
pub mod Event
pub mod Idempotency
