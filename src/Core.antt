-- ===== src/Core.antt =====
-- The versioned data contracts (levelup/core/).
pub mod Faults
pub mod Json
pub mod Numbers
pub mod Task
pub mod Trajectory
pub mod Outcome
pub mod Reference
pub mod Ladder
