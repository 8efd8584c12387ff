-- ===== src/Core/Ladder.antt =====
-- levelup/core/experiment.py: improvement ladders and exposure manifests.
pub mod Order
pub mod Exposure
use levelup_bench.Prelude.{
  ℕ, String, Bool, true, false, not, ◌&&◌, List, [], ◌∷◌, Option, none, some, map, length, contains,
  select, string_eq, ◌==◌, Result, ok, raise, raise_if, ◌>>◌, if◌then◌else◌,
}
use levelup_bench.Core.Faults.{
  Fault, value_error, key_error, ladder_empty, ordinals_not_contiguous, stage_ids_not_unique,
  trajectory_ids_not_unique, not_improving, tasks_overlap, exposed_ids_not_unique,
}
use levelup_bench.Core.Json.{Fields}
use levelup_bench.Core.Numbers.{Float, less}
use levelup_bench.Core.Task.{Direction, minimize, maximize, all_unique}
use levelup_bench.Core.Trajectory.{same_numbers, range_from}

pub record ImprovementStage : Type 0 where
  pub stage_id : String
  pub ordinal : ℕ
  pub label : String
  pub trajectory_id : String
  pub performance_value : Float
  pub provenance : Fields

pub record ImprovementLadder : Type 0 where
  pub task_id : String
  pub direction : Direction
  pub stages : List ImprovementStage

-- The later of two stages is the better one.
abbrev pub improves : Direction → ImprovementStage → ImprovementStage → Bool
improves minimize earlier later = less later.performance_value earlier.performance_value
improves maximize earlier later = less earlier.performance_value later.performance_value

-- `all(… for earlier, later in zip(values, values[1:]))`
unfoldable pub improving : Direction → List ImprovementStage → Bool
improving d [] = true
improving d (s ∷ []) = true
improving d (s ∷ t ∷ rest) = improves d s t && improving d (t ∷ rest)

abbrev pub is_empty : List ImprovementStage → Bool
is_empty [] = true
is_empty (s ∷ rest) = false

-- `ImprovementLadder.stages_are_ordered_and_improving`, on the fields that were given.
unfoldable pub check_ladder : ImprovementLadder → Result Fault ImprovementLadder
check_ladder l =
    raise_if (is_empty l.stages) (value_error ladder_empty)
    >> raise_if
        (not (same_numbers (map (λ s. s.ordinal) l.stages) (range_from 0 (length l.stages))))
        (value_error ordinals_not_contiguous)
    >> raise_if (not (all_unique (map (λ s. s.stage_id) l.stages)))
        (value_error stage_ids_not_unique)
    >> raise_if (not (all_unique (map (λ s. s.trajectory_id) l.stages)))
        (value_error trajectory_ids_not_unique)
    >> raise_if (not (improving l.direction l.stages)) (value_error not_improving)
    >> ok l

abbrev pub only : List ImprovementStage → Result Fault ImprovementStage
only [] = raise key_error
only (s ∷ []) = ok s
only (s ∷ t ∷ rest) = raise key_error

-- `ImprovementLadder.stage`
unfoldable pub stage : ImprovementLadder → String → Result Fault ImprovementStage
stage l label = only (select (λ s. s.label == label) l.stages)

pub record ExposureManifest : Type 0 where
  pub condition_id : String
  pub train_task_ids : List String
  pub held_out_task_ids : List String
  pub exposed_trajectory_ids : List String
  pub exposed_stage_labels : List String
  pub privileged_state_access : Bool
  pub structured_constraint_access : Bool
  pub metadata : Fields

-- `bool(set(xs) & set(ys))`
pub overlap : List String → List String → Bool
overlap [] ys = false
overlap (x ∷ xs) ys = if contains x ys then true else overlap xs ys

-- `ExposureManifest.train_and_test_are_disjoint`, on the fields that were given.
pub check_manifest : ExposureManifest → Result Fault ExposureManifest
check_manifest m =
    raise_if (overlap m.train_task_ids m.held_out_task_ids) (value_error tasks_overlap)
    >> raise_if (not (all_unique m.exposed_trajectory_ids)) (value_error exposed_ids_not_unique)
    >> ok m
