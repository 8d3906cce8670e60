-- ===== src/Runsd/Db.antt =====
-- crates/runsd/src/db: the rows, the tables and the SQL statements of the daemon.
pub mod Row
pub mod Changes
pub mod Tables
pub mod Queries
pub mod Keys
pub mod Sound
pub mod Swept
pub mod RoundTrip
pub mod Replay
