-- ===== src/Core/Task.antt =====
-- levelup/core/task.py
use levelup_bench.Prelude.{
  ℕ, String, Bool, not, List, Option, map, length, to_set, string_eq, eqb, Result, ok, raise_if,
  ◌>>◌,
}
use levelup_bench.Core.Faults.{Fault, value_error, constraint_ids_not_unique}
use levelup_bench.Core.Json.{Fields}

pub record EnvironmentSpec : Type 0 where
  pub adapter : String
  pub environment_id : String
  pub version : String
  pub seed : Option ℕ
  pub configuration : Fields

pub record ConstraintSpec : Type 0 where
  pub constraint_id : String
  pub description : String
  pub verifier_id : String
  pub verifier_config : Fields

pub data Direction : Type 0 where
  minimize maximize : Direction

pub record ObjectiveSpec : Type 0 where
  pub metric_id : String
  pub direction : Direction
  pub unit : String

-- `schema_version` is a constant, and is left out of this and the other records.
pub record TaskSpec : Type 0 where
  pub task_id : String
  pub environment : EnvironmentSpec
  pub instruction : String
  pub constraints : List ConstraintSpec
  pub objective : ObjectiveSpec
  pub metadata : Fields

abbrev pub constraint_ids : List ConstraintSpec → List String
constraint_ids = map (λ c. c.constraint_id)

-- `len(ids) == len(set(ids))`
unfoldable pub all_unique : List String → Bool
all_unique ids = eqb (length ids) (length (to_set ids))

-- `TaskSpec.constraint_ids_are_unique`, on the fields that were given.
pub check_task : TaskSpec → Result Fault TaskSpec
check_task task =
    raise_if (not (all_unique (constraint_ids task.constraints)))
      (value_error constraint_ids_not_unique)
    >> ok task
