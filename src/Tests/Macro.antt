-- ===== src/Tests/Macro.antt =====
-- The theorems on MacroTrack, applied to a track of five checkpoints.
use levelup_bench.Prelude.{
  ℕ, ◌≤◌, ◌<◌, ◌≡◌, ◌⊎◌, refl, String, true, List, [], ◌∷◌, none, some, ok, raise, arith,
}
use levelup_bench.Prelude.Lists.{contains, to_set}
use levelup_bench.Prelude.Texts.{join, decimal}
use levelup_bench.Core.Faults.{value_error, ladder_not_improving}
use levelup_bench.Core.Json.{no_fields}
use levelup_bench.Core.Numbers.{float}
use levelup_bench.Core.Outcome.{
  BenchmarkResult, ConstraintOutcome, check_result, valid_for, performance_eligible_for, same_set,
  subset, all_passed,
}
use levelup_bench.Core.Reference.{ReferenceEntry, proven_optimum}
use levelup_bench.Core.Task.{all_unique}
use levelup_bench.Core.Trajectory.{Trajectory, reference, steps_from}
use levelup_bench.Evaluation.{
  evaluate_trajectory, replay_steps, verify_all, validate_reference, report,
}
use levelup_bench.Track.{verify_never_used}
use levelup_bench.MacroTrack.{
  MacroTrack, MacroSession, macro_environment, macro_task_spec, macro_reset, macro_step,
  macro_outcome, macro_state_hash, macro_objective, next_position, find_spec,
}
use levelup_bench.MacroTrack.Bounds.{macro_reference-ge-optimum_value}
use levelup_bench.MacroTrack.Bundle.{stage_actions}
use levelup_bench.MacroTrack.Bundle.Stages.{IsLadder, stage_actions_branches}
use levelup_bench.MacroTrack.Oracle.{Plan, optimal_valid_actions, optimum_value}
use levelup_bench.MacroTrack.Oracle.Optimum.{optimal_valid_actions-IsCheapest}
use levelup_bench.MacroTrack.Oracle.Routes.{IsCheapest}
use levelup_bench.Tests.Samples.{runtime}

abbrev five : MacroTrack
five = record { distance = 5 }

abbrev five_trajectory : Trajectory
five_trajectory = record {
  trajectory_id = "best";
  task_id = "micro.macro_track.d5.v1";
  source = reference;
  environment_seed = none;
  steps = steps_from 0 ("leap" ∷ "dash" ∷ []);
  final_state_hash = none;
}

abbrev five_reference : ReferenceEntry
five_reference = record {
  reference_id = "r";
  tier = proven_optimum;
  performance_value = float 7;
  trajectory_id = some "best";
  verified = true;
  provenance = no_fields;
}

abbrev five_final : MacroSession
five_final = record { position = 5; elapsed_ticks = 7; actions = "leap" ∷ "dash" ∷ [] }

abbrev five_outcomes : List ConstraintOutcome
five_outcomes =
    record {
      constraint_id = "never_warp";
      passed = true;
      evidence = some "action warp was never used";
    }
    ∷ []

abbrev five_result : BenchmarkResult
five_result =
    report (macro_environment runtime five) five_trajectory none none five_final true five_outcomes

five_validated :
    validate_reference (macro_environment runtime five) five_reference five_trajectory
    ≡ ok five_result
unfolding validate_reference evaluate_trajectory replay_steps verify_all check_result macro_reset
    macro_step macro_outcome macro_state_hash macro_objective next_position find_spec
    macro_task_spec verify_never_used contains to_set all_unique steps_from join decimal valid_for
    performance_eligible_for same_set subset all_passed float
five_validated = refl

macro_reference-ge-optimum_value_example :
    (ticks best : ℕ) × (float 7 ≡ float ticks)
    × (optimum_value 5 ≡ ok (float best))
    × (best ≤ ticks)
macro_reference-ge-optimum_value_example =
    macro_reference-ge-optimum_value runtime five five_reference five_trajectory five_result
      five_validated

optimal_valid_actions-IsCheapest_example :
    (plan : Plan) × (optimal_valid_actions 5 ≡ ok plan.actions) × IsCheapest 5 plan
optimal_valid_actions-IsCheapest_example = optimal_valid_actions-IsCheapest 5

stage_actions_branches_example :
    ((5 < 5) × (stage_actions 5 ≡ raise (value_error ladder_not_improving)))
    ⊎ ((5 ≤ 5) × (best : ℕ) × (names : List String) × IsLadder 5 best names)
stage_actions_branches_example = stage_actions_branches 5 (omega arith)
