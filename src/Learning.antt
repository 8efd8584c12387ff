-- ===== src/Learning.antt =====
-- levelup/learning: the shuffled histories of state_conditioned.py.
pub mod Derangements
pub mod History
