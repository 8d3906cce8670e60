-- ===== src/Runs/App.antt =====
-- crates/runs/src/app: the state of the terminal client and its pure update.
pub mod State
pub mod Keybindings
pub mod Message
pub mod Update
