-- ===== src/Runs/Ui.antt =====
-- crates/runs/src/ui.rs and ui/: what the terminal client draws. ratatui, which lays out the panels and writes
-- the styled texts, is left out.
pub mod Colors
pub mod Dashboard
pub mod Highlight
pub mod RunList
pub mod StatusBar
pub mod Details
pub mod Overlays
