-- ===== src/Bundles.antt =====
-- The bundles and the held-out tasks of levelup/envs/adaptive_track.py, mechanictrack.py and
-- challenge_track.py, whose loops are the same, for any way to make a track.
pub mod Gaps
pub mod Families
pub mod Ends
use levelup_bench.Prelude.{
  ℕ, zero, suc, ◌≤◌, String, Bool, true, false, not, ◌&&◌, ◌||◌, List, [], ◌∷◌, ◌++◌, Option, none,
  some, length, string_eq, ◌==◌, ltb, leb, Result, ok, raise, raise_if, ◌>>=◌, ◌>>◌, if◌then◌else◌,
}
use levelup_bench.Prelude.Texts.{join}
use levelup_bench.Core.Faults.{Fault, ValueFault, value_error, key_error, no_strict_gap}
use levelup_bench.Core.Json.{Fields}
use levelup_bench.Core.Ladder.{ImprovementStage, ImprovementLadder, check_ladder, stage}
use levelup_bench.Core.Numbers.{Float, float}
use levelup_bench.Core.Task.{TaskSpec, minimize}
use levelup_bench.Core.Trajectory.{Trajectory, reference, check_trajectory, steps_from}
use levelup_bench.Course.{Course}
use levelup_bench.MacroTrack.Bundle.{find_trajectory}
use levelup_bench.Course.Oracle.{optimal_path, frontier_path}

-- A call that may run out of fuel, or raise, and what is done with its value.
infixl 5 ◌>>>=◌
abbrev pub ◌>>>=◌ {ℓ} :
    {F A B : Type ℓ} → Option (Result F A) → (A → Option (Result F B)) → Option (Result F B)
none >>>= f = none
some (raise e) >>>= f = some (raise e)
some (ok a) >>>= f = f a

-- What the two oracles return.
pub record Costs : Type 0 where
  pub frontier_cost : ℕ
  pub frontier_actions : List String
  pub optimum_cost : ℕ
  pub optimum_actions : List String

unfoldable pub both_costs : ℕ → Course → Option (Result Fault Costs)
both_costs fuel c = frontier_path fuel c >>>= λ f. optimal_path fuel c >>>= λ o. some (
    ok (record {
      frontier_cost = f.0;
      frontier_actions = f.1;
      optimum_cost = o.0;
      optimum_actions = o.1;
    }))

-- `==` on lists of texts.
unfoldable pub same_path : List String → List String → Bool
same_path [] [] = true
same_path [] (y ∷ ys) = false
same_path (x ∷ xs) [] = false
same_path (x ∷ xs) (y ∷ ys) = x == y && same_path xs ys

-- The condition of the held-out loops. That of the bundles is its negation.
abbrev pub has_gap : Costs → Bool
has_gap o =
    ltb o.optimum_cost o.frontier_cost && not (same_path o.frontier_actions o.optimum_actions)

-- A bundle without its environment.
pub record Bundle : Type 0 where
  pub ladder : ImprovementLadder
  pub trajectories : List Trajectory

-- A trajectory of the bundle.
abbrev pub bundled : String → String → List String → Trajectory
bundled task_id label actions = record {
  trajectory_id = join (task_id ∷ "." ∷ label ∷ []);
  task_id = task_id;
  source = reference;
  environment_seed = none;
  steps = steps_from 0 actions;
  final_state_hash = none;
}

-- A stage of the bundle.
abbrev pub bundled_stage : String → ℕ → String → ℕ → Fields → ImprovementStage
bundled_stage task_id ordinal label cost provenance = record {
  stage_id = join (task_id ∷ ":" ∷ label ∷ []);
  ordinal = ordinal;
  label = label;
  trajectory_id = join (task_id ∷ "." ∷ label ∷ []);
  performance_value = float cost;
  provenance = provenance;
}

-- `adaptive_track_bundle` from the oracles on. The provenance depends on the label alone.
unfoldable pub bundle_of : String → (String → Fields) → Costs → Result Fault Bundle
bundle_of task_id provenance o = do
  raise_if (leb o.frontier_cost o.optimum_cost || same_path o.frontier_actions o.optimum_actions)
      (value_error no_strict_gap)
  frontier ← check_trajectory (bundled task_id "frontier" o.frontier_actions)
  optimum ← check_trajectory (bundled task_id "optimum" o.optimum_actions)
  ladder ← check_ladder (record {
    task_id = task_id;
    direction = minimize;
    stages =
        bundled_stage task_id 0 "frontier" o.frontier_cost (provenance "frontier")
        ∷ bundled_stage task_id 1 "optimum" o.optimum_cost (provenance "optimum")
        ∷ [];
  })
  ok (record { ladder = ladder; trajectories = frontier ∷ optimum ∷ [] })

-- `AdaptiveTrackBundle.trajectory_for`
unfoldable pub bundled_trajectory : Bundle → String → Result Fault Trajectory
bundled_trajectory b label =
    stage b.ladder label >>= λ s. find_trajectory s.trajectory_id b.trajectories

-- `"no strict frontier-to-optimum gap" in str(exc)`, of a `ValueError`.
abbrev pub lacks_gap : Fault → Bool
lacks_gap (value_error no_strict_gap) = true
lacks_gap _ = false

-- A held-out track with its optimum value, or a bundled one with its bundle.
pub record Paired (T V : Type 0) : Type 0 where
  pub track : T
  pub value : V

-- `make` makes the track of a task index, or has run out of fuel.
module _ {T : Type 0} (make : ℕ → Option (Result Fault T)) (course_of : T → Course) (fuel : ℕ) where
  -- The loop of `held_out_adaptive_tasks`, of so many rounds at most.
  unfoldable pub held_out :
      ℕ → ℕ → ℕ → List (Paired T Float) → Option (Result Fault (List (Paired T Float)))
  held_out zero count index tasks = none
  held_out (suc rounds) count index tasks = elim (ltb (length tasks) count) [
    | false ↦ some (ok tasks)
    | true ↦ make index >>>= λ t. both_costs fuel (course_of t) >>>= λ o.
        held_out rounds count (suc index) (
          if has_gap o
          then tasks ++ record { track = t; value = float o.optimum_cost } ∷ []
          else tasks)
  ]

  -- `adaptive_track_bundle`
  unfoldable pub track_bundle : (String → Fields) → ℕ → Option (Result Fault (Paired T Bundle))
  track_bundle provenance index = make index >>>= λ t. both_costs fuel (course_of t) >>>= λ o.
      some (
        bundle_of ((course_of t).task_spec).task_id provenance o >>= λ b.
        ok (record { track = t; value = b }))

  -- The loop of `collect_adaptive_bundles`, of so many rounds at most.
  unfoldable pub collect_bundles :
      (String → Fields)
      → ℕ
      → ℕ
      → ℕ
      → List (Paired T Bundle)
      → Option (Result Fault (List (Paired T Bundle)))
  collect_bundles provenance zero count index bundles = none
  collect_bundles provenance (suc rounds) count index bundles = elim (ltb (length bundles) count) [
    | false ↦ some (ok bundles)
    | true ↦ elim (track_bundle provenance index) [
      | none ↦ none
      | some (raise e) ↦
          let more = collect_bundles provenance rounds count (suc index) bundles in
          if lacks_gap e then more else some (raise e)
      | some (ok b) ↦ collect_bundles provenance rounds count (suc index) (bundles ++ b ∷ [])
    ]
  ]
