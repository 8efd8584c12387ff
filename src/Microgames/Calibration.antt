-- ===== src/Microgames/Calibration.antt =====
-- The trajectories and ladders of levelup/envs/microgames.py.
pub mod Verified
use levelup_bench.Prelude.{
  ℕ, String, true, false, List, [], ◌∷◌, Option, none, some, Result, ◌>>=◌, ok,
}
use levelup_bench.Core.Faults.{Fault}
use levelup_bench.Core.Json.{no_fields, field, text, boolean}
use levelup_bench.Core.Numbers.{float}
use levelup_bench.Core.Reference.{
  PerformanceTier, proven_optimum, ReferenceEntry, ReferenceLadder, check_reference_ladder,
}
use levelup_bench.Core.Trajectory.{
  Source, oracle, reference, Trajectory, check_trajectory, steps_from,
}

-- `_trajectory`
abbrev pub micro_trajectory : String → String → List String → Source → Trajectory
micro_trajectory trajectory_id task_id actions source = record {
  trajectory_id = trajectory_id;
  task_id = task_id;
  source = source;
  environment_seed = none;
  steps = steps_from 0 actions;
  final_state_hash = none;
}

unfoldable pub detour_oracle : Result Fault Trajectory
detour_oracle = check_trajectory (
    micro_trajectory "micro.detour_grid.oracle.v1" "micro.detour_grid.v1"
      ("up" ∷ "right" ∷ "right" ∷ "right" ∷ "right" ∷ "down" ∷ []) oracle)

unfoldable pub detour_invalid_shortcut : Result Fault Trajectory
detour_invalid_shortcut = check_trajectory (
    micro_trajectory "micro.detour_grid.invalid_shortcut.v1" "micro.detour_grid.v1"
      ("right" ∷ "right" ∷ "right" ∷ "right" ∷ []) reference)

unfoldable pub switchboard_oracle : Result Fault Trajectory
switchboard_oracle = check_trajectory (
    micro_trajectory "micro.switchboard.oracle.v1" "micro.switchboard.v1" ("blue" ∷ "green" ∷ [])
      oracle)

unfoldable pub switchboard_invalid_shortcut : Result Fault Trajectory
switchboard_invalid_shortcut = check_trajectory (
    micro_trajectory "micro.switchboard.invalid_shortcut.v1" "micro.switchboard.v1" ("red" ∷ [])
      reference)

abbrev pub optimum_entry : String → ℕ → String → ReferenceEntry
optimum_entry reference_id value trajectory_id = record {
  reference_id = reference_id;
  tier = proven_optimum;
  performance_value = float value;
  trajectory_id = some trajectory_id;
  verified = true;
  provenance =
      field "kind" (text "exhaustive_calibration")
        (field "human_observed" (boolean false) no_fields);
}

abbrev pub detour_entry : Trajectory → ReferenceEntry
detour_entry t = optimum_entry "micro.detour_grid.optimum.v1" 6 t.trajectory_id

abbrev pub switchboard_entry : Trajectory → ReferenceEntry
switchboard_entry t = optimum_entry "micro.switchboard.optimum.v1" 2 t.trajectory_id

unfoldable pub calibration_ladders : Result Fault (ReferenceLadder × ReferenceLadder)
calibration_ladders = do
  t ← detour_oracle
  detour ←
      check_reference_ladder
        (record { task_id = "micro.detour_grid.v1"; entries = detour_entry t ∷ [] })
  u ← switchboard_oracle
  switchboard ←
      check_reference_ladder
        (record { task_id = "micro.switchboard.v1"; entries = switchboard_entry u ∷ [] })
  ok (detour, switchboard)
