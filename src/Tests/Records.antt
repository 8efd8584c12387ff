-- ===== src/Tests/Records.antt =====
-- The theorems on the benchmark's records, applied to concrete ones.
use levelup_bench.Prelude.{◌≡◌, ◌↔◌, refl, true, [], ◌∷◌, ok, In, IsUnique, map, length, string_eq}
use levelup_bench.Core.Json.{no_fields}
use levelup_bench.Core.Ladder.{
  ImprovementStage, ImprovementLadder, ExposureManifest, check_manifest, stage,
}
use levelup_bench.Core.Ladder.Exposure.{Disjoint, check_manifest_iff}
use levelup_bench.Core.Ladder.Order.{stage-eq-ok}
use levelup_bench.Core.Numbers.{float}
use levelup_bench.Core.Outcome.{valid_for}
use levelup_bench.Core.Outcome.Validity.{IsSatisfied, valid_for_iff}
use levelup_bench.Core.Reference.{
  ReferenceEntry, ReferenceLadder, novice, ranks, check_reference_ladder,
}
use levelup_bench.Core.Reference.Tiers.{Ordered, check_reference_ladder_iff}
use levelup_bench.Core.Task.{minimize}
use levelup_bench.Core.Trajectory.{TrajectoryStep, check_trajectory, range_from}
use levelup_bench.Core.Trajectory.Indices.{check_trajectory_iff}
use levelup_bench.AdaptiveTrack.{course}
use levelup_bench.Tests.Samples.{sample_track, sample_trajectory, sample_reference, result_of}

valid_for_iff_example :
    (valid_for (result_of sample_trajectory true 11) (course sample_track).task_spec ≡ true)
    ↔ IsSatisfied (result_of sample_trajectory true 11) (course sample_track).task_spec
valid_for_iff_example =
    valid_for_iff (result_of sample_trajectory true 11) (course sample_track).task_spec

abbrev first_stage : ImprovementStage
first_stage = record {
  stage_id = "s0";
  ordinal = 0;
  label = "frontier";
  trajectory_id = "t0";
  performance_value = float 14;
  provenance = no_fields;
}

abbrev last_stage : ImprovementStage
last_stage = record {
  stage_id = "s1";
  ordinal = 1;
  label = "optimum";
  trajectory_id = "t1";
  performance_value = float 11;
  provenance = no_fields;
}

abbrev two_stages : ImprovementLadder
two_stages = record {
  task_id = "task";
  direction = minimize;
  stages = first_stage ∷ last_stage ∷ [];
}

stage-eq-ok_example :
    In last_stage two_stages.stages
    × (last_stage.label ≡ "optimum")
    × ((t : ImprovementStage) → In t two_stages.stages → t.label ≡ "optimum" → t ≡ last_stage)
unfolding stage
stage-eq-ok_example = stage-eq-ok two_stages "optimum" last_stage refl

abbrev split_manifest : ExposureManifest
split_manifest = record {
  condition_id = "condition";
  train_task_ids = "a" ∷ "b" ∷ [];
  held_out_task_ids = "c" ∷ [];
  exposed_trajectory_ids = "t0" ∷ "t1" ∷ [];
  exposed_stage_labels = [];
  privileged_state_access = true;
  structured_constraint_access = true;
  metadata = no_fields;
}

check_manifest_iff_example : (check_manifest split_manifest ≡ ok split_manifest) ↔ (
    Disjoint split_manifest.train_task_ids split_manifest.held_out_task_ids
    × IsUnique split_manifest.exposed_trajectory_ids)
check_manifest_iff_example = check_manifest_iff split_manifest

check_trajectory_iff_example : (check_trajectory sample_trajectory ≡ ok sample_trajectory) ↔ (
    (sample_trajectory ≡ sample_trajectory)
    × (map (λ (s : TrajectoryStep). s.index) sample_trajectory.steps
        ≡ range_from 0 (length sample_trajectory.steps)))
check_trajectory_iff_example = check_trajectory_iff sample_trajectory sample_trajectory

abbrev two_references : ReferenceLadder
two_references = record {
  task_id = "task";
  entries =
      record sample_reference { reference_id = "novice"; tier = novice } ∷ sample_reference ∷ [];
}

check_reference_ladder_iff_example : (check_reference_ladder two_references ≡ ok two_references) ↔ (
    IsUnique (map (λ (e : ReferenceEntry). e.reference_id) two_references.entries)
    × Ordered (ranks two_references.entries))
check_reference_ladder_iff_example = check_reference_ladder_iff two_references
