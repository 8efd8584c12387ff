-- ===== src/Environment.antt =====
-- levelup/envs/base.py: the contract between the evaluator and an environment. A call that raises
-- gives no new state, since an evaluation ends there.
use levelup_bench.Prelude.{ℕ, String, Bool, Option, Result}
use levelup_bench.Core.Faults.{Fault}
use levelup_bench.Core.Json.{Fields}
use levelup_bench.Core.Numbers.{Float}
use levelup_bench.Core.Outcome.{ConstraintOutcome}
use levelup_bench.Core.Task.{ConstraintSpec, TaskSpec}
use levelup_bench.Core.Trajectory.{ActionRecord}

pub record StepOutcome : Type 0 where
  pub observation : Fields
  pub completed : Bool
  pub state_hash : String

pub record Environment : Type 1 where
  pub State : Type 0
  pub task_spec : TaskSpec
  pub reset : Option ℕ → Result Fault (State × StepOutcome)
  pub step : State → ActionRecord → Result Fault (State × StepOutcome)
  pub verify_constraint : State → ConstraintSpec → Result Fault ConstraintOutcome
  pub objective_value : State → Float
  pub state_hash : State → String
