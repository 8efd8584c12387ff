-- ===== src/Tests/Courses.antt =====
-- A small combo track and a small mechanic track.
use levelup_bench.Prelude.{ℕ, ◌≡◌, refl, true, false, List, [], ◌∷◌, some, ok, length}
use levelup_bench.Prelude.Lists.{collect, contains, to_set}
use levelup_bench.Prelude.Ranges.{upto, pairs}
use levelup_bench.Prelude.Texts.{join, decimal}
use levelup_bench.Core.Numbers.{float}
use levelup_bench.Core.Outcome.{
  BenchmarkResult, check_result, valid_for, performance_eligible_for, same_set, subset, all_passed,
}
use levelup_bench.Core.Reference.{ReferenceEntry}
use levelup_bench.Core.Task.{all_unique}
use levelup_bench.Core.Trajectory.{Trajectory, steps_from}
use levelup_bench.Course.{
  environment, reset, step, outcome, state_hash, take_action, available_actions, objective_value,
}
use levelup_bench.Course.Oracle
use levelup_bench.Course.Oracle.{optimal_path, edges, edge_of, is_goal, price, true_cost, conclude}
use levelup_bench.Course.Oracle.Optimum.{enough_fuel}
use levelup_bench.Evaluation.{evaluate_trajectory, replay_steps, verify_all, validate_reference}
use levelup_bench.Search
use levelup_bench.Search.{loop, round, visit, relax_all, relax}
use levelup_bench.Search.Best.{lookup, cost_or}
use levelup_bench.Search.Heap.{heappop, take_least}
use levelup_bench.Track.{OpaqueAction, find_action, valid_actions, verify_never_used}
use levelup_bench.ComboTrack.{
  ComboTrack, combo_track, combo_transition, combo_task_spec, combo_course,
}
use levelup_bench.ComboTrack.Bounds.{combo_states}
use levelup_bench.MechanicTrack.{mechanic_track}
use levelup_bench.MechanicTrack.Rules.{MechanicTrack, cooldown}
use levelup_bench.MechanicTrack.Bounds.{mechanic_states}
use levelup_bench.Tests.Samples.{
  runtime, sample_trajectory, sample_reference, result_of, override_action, sample_actions,
}

abbrev pub plain_step : OpaqueAction
plain_step = record {
  alias = "a1";
  progress = 1;
  tick_cost = 6;
  resource_use = 0;
  resource_gain = 0;
  pressure_gain = 1;
  pressure_clear = 0;
  forbidden = false;
}

abbrev pub burst : OpaqueAction
burst = record {
  alias = "a2";
  progress = 1;
  tick_cost = 4;
  resource_use = 0;
  resource_gain = 0;
  pressure_gain = 0;
  pressure_clear = 3;
  forbidden = false;
}

abbrev pub charge : OpaqueAction
charge = record {
  alias = "a3";
  progress = 0;
  tick_cost = 3;
  resource_use = 0;
  resource_gain = 0;
  pressure_gain = 2;
  pressure_clear = 0;
  forbidden = false;
}

abbrev pub combo_actions : List OpaqueAction
combo_actions = plain_step ∷ burst ∷ charge ∷ override_action ∷ []

abbrev pub sample_combo : ComboTrack
sample_combo = record {
  target = 4;
  actions = combo_actions;
  task_index = 0;
  generator_seed = 1;
  combo_cap = 3;
  forbidden_alias = "a4";
}

pub sample_combo_built : combo_track 4 combo_actions 0 1 3 ≡ ok sample_combo
unfolding combo_track all_unique to_set contains
sample_combo_built = refl

abbrev pub combo_fuel : ℕ
combo_fuel = enough_fuel (length (combo_states sample_combo))

pub combo_optimum :
    optimal_path combo_fuel (combo_course sample_combo) ≡ some (ok (10, "a3" ∷ "a3" ∷ "a2" ∷ []))
unfolding Oracle.search_path Search.search_path loop round visit relax_all relax edges edge_of
    is_goal price true_cost conclude combo_course combo_transition find_action valid_actions heappop
    take_least lookup cost_or collect enough_fuel combo_states upto pairs
combo_optimum = refl

abbrev pub combo_trajectory : Trajectory
combo_trajectory = record sample_trajectory {
  task_id = "micro.combo_track.s1.i0.v1";
  steps = steps_from 0 ("a3" ∷ "a3" ∷ "a2" ∷ []);
}

abbrev pub combo_reference : ReferenceEntry
combo_reference = record sample_reference { performance_value = float 10 }

abbrev pub combo_result : BenchmarkResult
combo_result = record (result_of combo_trajectory true 10) {
  task_id = "micro.combo_track.s1.i0.v1";
}

pub combo_validated :
    validate_reference
      (environment runtime (combo_course sample_combo))
      combo_reference
      combo_trajectory
    ≡ ok combo_result
unfolding evaluate_trajectory replay_steps verify_all check_result reset step outcome state_hash
    take_action available_actions objective_value combo_course combo_task_spec combo_transition
    find_action verify_never_used all_unique to_set contains collect steps_from join decimal
    validate_reference valid_for performance_eligible_for same_set subset all_passed float
combo_validated = refl

abbrev pub sample_mechanic : MechanicTrack
sample_mechanic = record {
  family = cooldown;
  target = 4;
  actions = sample_actions;
  task_index = 0;
  generator_seed = 1;
  capacity = 0;
  start_resource = 0;
  pressure_cap = 2;
  forbidden_alias = "a4";
}

pub sample_mechanic_built :
    mechanic_track "cooldown" 4 sample_actions 0 1 0 0 2 ≡ ok sample_mechanic
unfolding mechanic_track all_unique to_set contains
sample_mechanic_built = refl

abbrev pub mechanic_fuel : ℕ
mechanic_fuel = enough_fuel (length (mechanic_states sample_mechanic))
