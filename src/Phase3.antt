-- ===== src/Phase3.antt =====
-- The reduction of the Phase 3 development matrix: levelup/experiments/milestone6_phase3_selection.py,
-- and the outcomes of levelup/experiments/runner/records.py that it reads.
pub mod Outcomes
pub mod Metrics
pub mod Selection
pub mod Claims
pub mod Grouping
