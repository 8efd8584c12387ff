-- ===== src/Evaluation.antt =====
-- levelup/evaluation.py: replay of a trajectory, and validation of a reference.
pub mod Traces
pub mod Stops
pub mod Accepts
pub mod Invariants
use levelup_bench.Prelude.{
  ℕ, String, Bool, true, false, not, ◌&&◌, List, [], ◌∷◌, Option, none, some, length, string_eq,
  ◌==◌, Result, ok, raise, raise_if, ◌>>=◌, ◌>>◌, if◌then◌else◌,
}
use levelup_bench.Prelude.Int.{int_eq}
use levelup_bench.Prelude.Texts.{join}
use levelup_bench.Core.Faults.{
  Fault, is_value_error, replay_error, wrong_task, complete_at_reset, after_completion,
  rejected_action, state_hash_mismatch, final_hash_mismatch, reference_error, no_trajectory_id,
  wrong_trajectory, not_eligible, wrong_performance,
}
use levelup_bench.Core.Numbers.{Float, float}
use levelup_bench.Core.Outcome.{
  ConstraintOutcome, EfficiencyMetrics, BenchmarkResult, check_result, performance_eligible_for,
}
use levelup_bench.Core.Reference.{ReferenceEntry}
use levelup_bench.Core.Task.{ConstraintSpec, TaskSpec}
use levelup_bench.Core.Trajectory.{Trajectory, TrajectoryStep}
use levelup_bench.Environment.{Environment, StepOutcome}

-- `except (TypeError, ValueError) as exc: raise ReplayError(…) from exc`
abbrev rejected : {A : Type 0} → Result Fault A → Result Fault A
rejected (ok a) = ok a
rejected (raise f) = raise (if is_value_error f then replay_error rejected_action else f)

-- `expected is not None and expected != observed`
abbrev pub mismatches : Option String → String → Bool
mismatches none observed = false
mismatches (some expected) observed = not (expected == observed)

abbrev is_empty : List TrajectoryStep → Bool
is_empty [] = true
is_empty (s ∷ rest) = false

-- `seed = trajectory.environment_seed`, or the task's own seed.
abbrev pub seed_or : Option ℕ → Option ℕ → Option ℕ
seed_or none default = default
seed_or (some s) default = some s

module _ (env : Environment) where
  -- The loop over the steps, from a state and whether the task is complete there.
  unfoldable pub replay_steps :
      List TrajectoryStep → env.State → Bool → Result Fault (env.State × Bool)
  replay_steps [] s completed = ok (s, completed)
  replay_steps (step ∷ rest) s completed = do
    raise_if completed (replay_error after_completion)
    (s', outcome) ← rejected (env.step s step.action)
    raise_if (mismatches step.state_hash outcome.state_hash) (replay_error state_hash_mismatch)
    replay_steps rest s' outcome.completed

  unfoldable pub verify_all :
      env.State → List ConstraintSpec → Result Fault (List ConstraintOutcome)
  verify_all s [] = ok []
  verify_all s (c ∷ rest) = do
    outcome ← env.verify_constraint s c
    outcomes ← verify_all s rest
    ok (outcome ∷ outcomes)

  abbrev default_metrics : Trajectory → EfficiencyMetrics
  default_metrics t = record {
    environment_steps = length t.steps;
    agent_actions = length t.steps;
    wall_time_seconds = float 0;
    input_tokens = none;
    output_tokens = none;
    estimated_cost_usd = none;
  }

  abbrev metrics_or : Option EfficiencyMetrics → Trajectory → EfficiencyMetrics
  metrics_or none t = default_metrics t
  metrics_or (some m) t = m

  -- `run_id or f"replay:{trajectory.trajectory_id}"`
  abbrev run_id_or : Option String → Trajectory → String
  run_id_or none t = join ("replay:" ∷ t.trajectory_id ∷ [])
  run_id_or (some r) t = if r == "" then join ("replay:" ∷ t.trajectory_id ∷ []) else r

  -- The fields of the result.
  abbrev pub report :
      Trajectory
      → Option String
      → Option EfficiencyMetrics
      → env.State
      → Bool
      → List ConstraintOutcome
      → BenchmarkResult
  report t run_id efficiency s' completed outcomes = record {
    run_id = run_id_or run_id t;
    task_id = env.task_spec.task_id;
    trajectory_id = t.trajectory_id;
    completed = completed;
    constraint_outcomes = outcomes;
    quality_value = none;
    performance_value = if completed then some (env.objective_value s') else none;
    efficiency = metrics_or efficiency t;
    final_state_hash = some (env.state_hash s');
  }

  unfoldable pub evaluate_trajectory :
      Trajectory → Option String → Option EfficiencyMetrics → Result Fault BenchmarkResult
  evaluate_trajectory t run_id efficiency = do
    raise_if (not (t.task_id == env.task_spec.task_id)) (replay_error wrong_task)
    (s, initial) ← env.reset (seed_or t.environment_seed env.task_spec.environment.seed)
    raise_if (not (is_empty t.steps) && initial.completed) (replay_error complete_at_reset)
    (s', completed) ← replay_steps t.steps s initial.completed
    raise_if (mismatches t.final_state_hash (env.state_hash s')) (replay_error final_hash_mismatch)
    outcomes ← verify_all s' env.task_spec.constraints
    check_result (report t run_id efficiency s' completed outcomes)

  -- `result.performance_value != reference.performance_value`
  abbrev pub differs : Option Float → Float → Bool
  differs none claimed = true
  differs (some x) claimed = not (x.multiple == claimed.multiple)

  -- `reference.trajectory_id`, which must name the trajectory.
  abbrev pub check_trajectory_id : Option String → Trajectory → Result Fault Unit
  check_trajectory_id none t = raise (reference_error no_trajectory_id)
  check_trajectory_id (some i) t =
      raise_if (not (i == t.trajectory_id)) (reference_error wrong_trajectory)

  unfoldable pub validate_reference : ReferenceEntry → Trajectory → Result Fault BenchmarkResult
  validate_reference reference t = do
    check_trajectory_id reference.trajectory_id t
    result ← evaluate_trajectory t none none
    raise_if (not (performance_eligible_for result env.task_spec)) (reference_error not_eligible)
    raise_if (differs result.performance_value reference.performance_value)
        (reference_error wrong_performance)
    ok result
