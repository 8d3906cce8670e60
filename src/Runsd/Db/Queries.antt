-- ===== src/Runsd/Db/Queries.antt =====
-- crates/runsd/src/db/queries.rs: each query is a function of the tables. `now` is the reading of
-- the clock that it makes. An error of SQLite that the schema does not explain is the caller's
-- to choose (Runsd/Actor/Db.antt), and leaves the tables as they are.
pub mod Runs
pub mod Calculations
pub mod Events
pub mod Recovery
