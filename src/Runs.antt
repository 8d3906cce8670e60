-- ===== src/Runs.antt =====
-- crates/runs: the terminal client.
pub mod App
pub mod Network
pub mod Ui
pub mod Config
pub mod Main
