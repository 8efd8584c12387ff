-- ===== src/Tests.antt =====
-- Concrete tracks, trajectories and references, on which the theorems are applied.
pub mod Samples
pub mod Courses
pub mod Tracks
pub mod Records
pub mod Generated
pub mod Shortcut
pub mod Macro
pub mod Micro
pub mod Histories
pub mod Selection
pub mod Held
pub mod Grouping
pub mod Replays
