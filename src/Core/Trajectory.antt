-- ===== src/Core/Trajectory.antt =====
-- levelup/core/trajectory.py
pub mod Indices
use levelup_bench.Prelude.{
  ℕ, zero, suc, ◌+◌, String, Bool, true, false, not, ◌&&◌, List, [], ◌∷◌, Option, none, some, map,
  eqb, Result, ok, raise_if, ◌>>◌, length,
}
use levelup_bench.Core.Faults.{Fault, value_error, steps_not_contiguous}
use levelup_bench.Core.Json.{Fields, no_fields}

pub record ActionRecord : Type 0 where
  pub name : String
  pub arguments : Fields

pub record TrajectoryStep : Type 0 where
  pub index : ℕ
  pub action : ActionRecord
  pub observation_hash : Option String
  pub state_hash : Option String

pub data Source : Type 0 where
  agent reference oracle : Source

pub record Trajectory : Type 0 where
  pub trajectory_id : String
  pub task_id : String
  pub source : Source
  pub environment_seed : Option ℕ
  pub steps : List TrajectoryStep
  pub final_state_hash : Option String

-- `list(range(start, start + count))`
unfoldable pub range_from : ℕ → ℕ → List ℕ
range_from start zero = []
range_from start (suc count) = start ∷ range_from (start + 1) count

-- `==` on lists of whole numbers.
unfoldable pub same_numbers : List ℕ → List ℕ → Bool
same_numbers [] [] = true
same_numbers [] (y ∷ ys) = false
same_numbers (x ∷ xs) [] = false
same_numbers (x ∷ xs) (y ∷ ys) = eqb x y && same_numbers xs ys

-- `Trajectory.steps_are_contiguous`, on the fields that were given.
unfoldable pub check_trajectory : Trajectory → Result Fault Trajectory
unfolding same_numbers range_from
check_trajectory t =
    let indices = map (λ s. s.index) t.steps in
    raise_if (not (same_numbers indices (range_from 0 (length indices))))
      (value_error steps_not_contiguous)
    >> ok t

-- `ActionRecord(name=name)`
abbrev pub plain_action : String → ActionRecord
plain_action name = record { name = name; arguments = no_fields }

-- `TrajectoryStep(index=index, action=ActionRecord(name=name)) for index, name in enumerate(actions)`
unfoldable pub steps_from : ℕ → List String → List TrajectoryStep
steps_from index [] = []
steps_from index (name ∷ rest) =
    record { index = index; action = plain_action name; observation_hash = none; state_hash = none }
    ∷ steps_from (index + 1) rest
