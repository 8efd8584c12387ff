-- ===== src/Tests/Shortcut.antt =====
-- A mechanic track on which `step` accepts a run that `optimal_path` does not consider: between the two
-- bursts, the leap overshoots, and so only cools down.
use levelup_bench.Prelude.{
  ◌≡◌, refl, Bool, true, [], ◌∷◌, Option, none, some, Result, ok, raise, string_eq,
}
use levelup_bench.Prelude.Lists.{collect, contains, to_set}
use levelup_bench.Prelude.Texts.{join, decimal}
use levelup_bench.Core.Faults.{Fault, runtime_error}
use levelup_bench.Core.Numbers.{Float, float}
use levelup_bench.Core.Outcome.{
  BenchmarkResult, check_result, valid_for, performance_eligible_for, same_set, subset, all_passed,
}
use levelup_bench.Core.Task.{TaskSpec, all_unique}
use levelup_bench.Core.Trajectory.{Trajectory, steps_from}
use levelup_bench.Course.{
  environment, reset, step, outcome, state_hash, take_action, available_actions, objective_value,
}
use levelup_bench.Course.Oracle
use levelup_bench.Course.Oracle.{optimal_path, edges, edge_of, is_goal, price, true_cost, conclude}
use levelup_bench.Evaluation.{evaluate_trajectory, replay_steps, verify_all}
use levelup_bench.Search
use levelup_bench.Search.{loop, round, visit, relax_all, relax}
use levelup_bench.Search.Best.{lookup, cost_or}
use levelup_bench.Search.Heap.{heappop, take_least}
use levelup_bench.Sampling.{simple_action}
use levelup_bench.Track.{find_action, valid_actions, verify_never_used}
use levelup_bench.MechanicTrack.{mechanic_course, mechanic_task_spec}
use levelup_bench.MechanicTrack.Rules.{MechanicTrack, cooldown, mechanic_transition}
use levelup_bench.Tests.Samples.{runtime, sample_trajectory, override_action}

abbrev leaping_track : MechanicTrack
leaping_track = record {
  family = cooldown;
  target = 6;
  actions =
      record (simple_action "burst" 3 1) { pressure_gain = 1 }
      ∷ simple_action "leap" 4 1
      ∷ override_action
      ∷ [];
  task_index = 0;
  generator_seed = 0;
  capacity = 0;
  start_resource = 0;
  pressure_cap = 1;
  forbidden_alias = "a4";
}

abbrev leaping_trajectory : Trajectory
leaping_trajectory = record sample_trajectory {
  task_id = "micro.mechanic_track.cooldown.s0.i0.v1";
  steps = steps_from 0 ("burst" ∷ "leap" ∷ "burst" ∷ []);
}

-- Whether an evaluation returns an eligible result, and its performance.
abbrev eligible_value : TaskSpec → Result Fault BenchmarkResult → Option (Bool × Option Float)
eligible_value task (ok r) = some (performance_eligible_for r task, r.performance_value)
eligible_value task (raise f) = none

-- The oracle finds no completion.
leaping_oracle_test : optimal_path 20 (mechanic_course leaping_track) ≡ some (raise runtime_error)
unfolding Oracle.search_path Search.search_path loop round visit relax_all relax edges edge_of
    is_goal price true_cost conclude mechanic_course mechanic_transition find_action valid_actions
    heappop take_least lookup cost_or collect
leaping_oracle_test = refl

-- The replay is eligible, in 3 ticks.
leaping_replay_test :
    eligible_value (mechanic_task_spec leaping_track) (
      evaluate_trajectory
        (environment runtime (mechanic_course leaping_track))
        leaping_trajectory
        none
        none)
    ≡ some (true, some (float 3))
unfolding evaluate_trajectory replay_steps verify_all check_result reset step outcome state_hash
    take_action available_actions objective_value mechanic_course mechanic_task_spec
    mechanic_transition find_action verify_never_used all_unique to_set contains collect steps_from
    join decimal valid_for performance_eligible_for same_set subset all_passed
leaping_replay_test = refl
