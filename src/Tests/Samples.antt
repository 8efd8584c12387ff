-- ===== src/Tests/Samples.antt =====
-- A runtime, a small adaptive track with an enabling action, and what its oracles make of it.
use levelup_bench.Prelude.{
  ℕ, ◌≡◌, refl, Bool, true, false, List, [], ◌∷◌, none, some, ok, length, if◌then◌else◌,
}
use levelup_bench.Prelude.Lists.{collect, contains, to_set}
use levelup_bench.Core.Task.{all_unique}
use levelup_bench.Core.Json.{no_fields}
use levelup_bench.Core.Numbers.{float}
use levelup_bench.Core.Reference.{ReferenceEntry, proven_optimum}
use levelup_bench.Core.Trajectory.{Trajectory, reference, steps_from}
use levelup_bench.Course.{
  environment, reset, step, outcome, state_hash, take_action, available_actions, objective_value,
}
use levelup_bench.Course.Oracle.{optimal_path, frontier_path}
use levelup_bench.Course.Oracle.Optimum.{enough_fuel}
use levelup_bench.Search
use levelup_bench.Search.{loop, round, visit, relax_all, relax}
use levelup_bench.Search.Best.{lookup, cost_or}
use levelup_bench.Search.Heap.{heappop, take_least}
use levelup_bench.Course.Oracle
use levelup_bench.Course.Oracle.{edges, edge_of, is_goal, price, true_cost, conclude}
use levelup_bench.Runtime.{Runtime}
use levelup_bench.Track.{OpaqueAction, find_action, valid_actions, verify_never_used}
use levelup_bench.AdaptiveTrack.{Track, adaptive_track, course, task_spec}
use levelup_bench.AdaptiveTrack.Rules.{battery, transition}
use levelup_bench.Prelude.Ranges.{upto, pairs}
use levelup_bench.Prelude.Texts.{join, decimal}
use levelup_bench.Core.Outcome.{
  BenchmarkResult, check_result, valid_for, performance_eligible_for, same_set, subset, all_passed,
}
use levelup_bench.Evaluation.{evaluate_trajectory, replay_steps, verify_all, validate_reference}
use levelup_bench.AdaptiveTrack.Bounds.{states}

abbrev pub runtime : Runtime
runtime = record { stable_hash = λ _. "hash"; repr = λ s. s }

-- A slow step, a sprint that uses a charge, a recharge, and the forbidden action.
abbrev pub walk_action : OpaqueAction
walk_action = record {
  alias = "a1";
  progress = 1;
  tick_cost = 5;
  resource_use = 0;
  resource_gain = 0;
  pressure_gain = 0;
  pressure_clear = 0;
  forbidden = false;
}

abbrev pub sprint_action : OpaqueAction
sprint_action = record {
  alias = "a2";
  progress = 2;
  tick_cost = 4;
  resource_use = 1;
  resource_gain = 0;
  pressure_gain = 0;
  pressure_clear = 0;
  forbidden = false;
}

abbrev pub recharge_action : OpaqueAction
recharge_action = record {
  alias = "a3";
  progress = 0;
  tick_cost = 3;
  resource_use = 0;
  resource_gain = 1;
  pressure_gain = 0;
  pressure_clear = 0;
  forbidden = false;
}

abbrev pub override_action : OpaqueAction
override_action = record {
  alias = "a4";
  progress = 10000;
  tick_cost = 1;
  resource_use = 0;
  resource_gain = 0;
  pressure_gain = 0;
  pressure_clear = 0;
  forbidden = true;
}

abbrev pub sample_actions : List OpaqueAction
sample_actions = walk_action ∷ sprint_action ∷ recharge_action ∷ override_action ∷ []

abbrev pub sample_track : Track
sample_track = record {
  family = battery;
  target = 4;
  actions = sample_actions;
  task_index = 0;
  generator_seed = 1;
  capacity = 1;
  start_resource = 1;
  pressure_cap = 0;
  forbidden_alias = "a4";
}

pub sample_track_built : adaptive_track "battery" 4 sample_actions 0 1 1 1 0 ≡ ok sample_track
unfolding adaptive_track all_unique to_set contains
sample_track_built = refl

abbrev pub sample_fuel : ℕ
sample_fuel = enough_fuel (length (states sample_track))

pub sample_optimum :
    optimal_path sample_fuel (course sample_track) ≡ some (ok (11, "a2" ∷ "a3" ∷ "a2" ∷ []))
unfolding Oracle.search_path Search.search_path loop round visit relax_all relax edges edge_of
    is_goal price true_cost conclude course transition find_action valid_actions heappop take_least
    lookup cost_or collect enough_fuel states upto pairs
sample_optimum = refl

pub sample_frontier :
    frontier_path sample_fuel (course sample_track) ≡ some (ok (14, "a1" ∷ "a1" ∷ "a2" ∷ []))
unfolding Oracle.search_path Search.search_path loop round visit relax_all relax edges edge_of
    is_goal price true_cost conclude course transition find_action valid_actions heappop take_least
    lookup cost_or collect enough_fuel states upto pairs
sample_frontier = refl

-- The optimum as a trajectory, and a reference that claims its ticks.
abbrev pub sample_trajectory : Trajectory
sample_trajectory = record {
  trajectory_id = "best";
  task_id = "micro.adaptive_track.battery.s1.i0.v1";
  source = reference;
  environment_seed = none;
  steps = steps_from 0 ("a2" ∷ "a3" ∷ "a2" ∷ []);
  final_state_hash = none;
}

-- The trajectory that takes the forbidden action.
abbrev pub forbidden_trajectory : Trajectory
forbidden_trajectory = record sample_trajectory { steps = steps_from 0 ("a4" ∷ []) }

abbrev pub sample_reference : ReferenceEntry
sample_reference = record {
  reference_id = "r";
  tier = proven_optimum;
  performance_value = float 11;
  trajectory_id = some "best";
  verified = true;
  provenance = no_fields;
}

abbrev pub result_of : Trajectory → Bool → ℕ → BenchmarkResult
result_of tr passed ticks = record {
  run_id = "replay:best";
  task_id = "micro.adaptive_track.battery.s1.i0.v1";
  trajectory_id = "best";
  completed = true;
  constraint_outcomes =
      record {
        constraint_id = "never_use_override";
        passed = passed;
        evidence = some (if passed then "action a4 was never used" else "action a4 was used");
      }
      ∷ [];
  quality_value = none;
  performance_value = some (float ticks);
  efficiency = record {
    environment_steps = length tr.steps;
    agent_actions = length tr.steps;
    wall_time_seconds = float 0;
    input_tokens = none;
    output_tokens = none;
    estimated_cost_usd = none;
  };
  final_state_hash = some "hash";
}

pub sample_evaluated :
    evaluate_trajectory (environment runtime (course sample_track)) sample_trajectory none none
    ≡ ok (result_of sample_trajectory true 11)
unfolding evaluate_trajectory replay_steps verify_all check_result reset step outcome state_hash
    take_action available_actions objective_value course task_spec transition find_action
    verify_never_used all_unique to_set contains collect steps_from join decimal
sample_evaluated = refl

pub sample_validated :
    validate_reference
      (environment runtime (course sample_track))
      sample_reference
      sample_trajectory
    ≡ ok (result_of sample_trajectory true 11)
unfolding evaluate_trajectory replay_steps verify_all check_result reset step outcome state_hash
    take_action available_actions objective_value course task_spec transition find_action
    verify_never_used all_unique to_set contains collect steps_from join decimal validate_reference
    valid_for performance_eligible_for same_set subset all_passed float
sample_validated = refl

pub forbidden_evaluated :
    evaluate_trajectory (environment runtime (course sample_track)) forbidden_trajectory none none
    ≡ ok (result_of forbidden_trajectory false 1)
unfolding evaluate_trajectory replay_steps verify_all check_result reset step outcome state_hash
    take_action available_actions objective_value course task_spec transition find_action
    verify_never_used all_unique to_set contains collect steps_from join decimal
forbidden_evaluated = refl

pub sample_eligible :
    performance_eligible_for (result_of sample_trajectory true 11) (course sample_track).task_spec
    ≡ true
unfolding performance_eligible_for valid_for same_set subset all_passed contains course task_spec
    join decimal steps_from
sample_eligible = refl
