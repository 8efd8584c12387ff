-- ===== src/Core/Outcome.antt =====
-- levelup/core/result.py
pub mod Validity
use levelup_bench.Prelude.{
  ℕ, String, Bool, true, false, not, ◌&&◌, List, [], ◌∷◌, Option, map, length, to_set, contains,
  string_eq, ◌==◌, eqb, Result, ok, raise_if, ◌>>◌, if◌then◌else◌,
}
use levelup_bench.Core.Faults.{Fault, value_error, outcome_ids_not_unique}
use levelup_bench.Core.Numbers.{Float}
use levelup_bench.Core.Task.{TaskSpec, constraint_ids, all_unique}

pub record ConstraintOutcome : Type 0 where
  pub constraint_id : String
  pub passed : Bool
  pub evidence : Option String

pub record EfficiencyMetrics : Type 0 where
  pub environment_steps : ℕ
  pub agent_actions : ℕ
  pub wall_time_seconds : Float
  pub input_tokens : Option ℕ
  pub output_tokens : Option ℕ
  pub estimated_cost_usd : Option Float

pub record BenchmarkResult : Type 0 where
  pub run_id : String
  pub task_id : String
  pub trajectory_id : String
  pub completed : Bool
  pub constraint_outcomes : List ConstraintOutcome
  pub quality_value : Option Float
  pub performance_value : Option Float
  pub efficiency : EfficiencyMetrics
  pub final_state_hash : Option String

abbrev pub outcome_ids : List ConstraintOutcome → List String
outcome_ids = map (λ o. o.constraint_id)

-- `BenchmarkResult.constraint_ids_are_unique`, on the fields that were given.
unfoldable pub check_result : BenchmarkResult → Result Fault BenchmarkResult
check_result r =
    raise_if (not (all_unique (outcome_ids r.constraint_outcomes)))
      (value_error outcome_ids_not_unique)
    >> ok r

-- Every element of the first set is in the second.
unfoldable pub subset : List String → List String → Bool
subset [] ys = true
subset (x ∷ xs) ys = contains x ys && subset xs ys

-- `==` on the sets of two lists.
unfoldable pub same_set : List String → List String → Bool
unfolding subset
same_set xs ys = subset xs ys && subset ys xs

-- `all(outcome.passed for outcome in outcomes)`
unfoldable pub all_passed : List ConstraintOutcome → Bool
all_passed [] = true
all_passed (o ∷ rest) = o.passed && all_passed rest

-- `BenchmarkResult.valid_for`
unfoldable pub valid_for : BenchmarkResult → TaskSpec → Bool
valid_for r task =
    if not (r.task_id == task.task_id)
    then false
    else if not (same_set (outcome_ids r.constraint_outcomes) (constraint_ids task.constraints))
    then false
    else all_passed r.constraint_outcomes

-- `BenchmarkResult.performance_eligible_for`
unfoldable pub performance_eligible_for : BenchmarkResult → TaskSpec → Bool
performance_eligible_for r task = r.completed && valid_for r task
