-- ===== src/Microgames.antt =====
-- levelup/envs/microgames.py: the calibration environments.
pub mod Detour
pub mod Switchboard
pub mod Calibration
