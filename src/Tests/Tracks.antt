-- ===== src/Tests/Tracks.antt =====
-- The theorems on tracks, searches and evaluations, applied to the samples.
use levelup_bench.Prelude.{ℕ, ◌≤◌, ◌≡◌, refl, true, false, [], ◌∷◌, some, inl, arith}
use levelup_bench.Core.Numbers.{float}
use levelup_bench.Core.Outcome.{performance_eligible_for}
use levelup_bench.Core.Trajectory.{steps_from}
use levelup_bench.Course.{environment}
use levelup_bench.Course.Oracle
use levelup_bench.Course.Oracle.{optimal_path, edges, is_goal}
use levelup_bench.Course.Oracle.Optimum.{
  IsDelivered, IsLeast, IsPlayed, Completes, optimal-le-frontier,
}
use levelup_bench.Course.References.{names, eligible-Completes, forbidden_not_eligible}
use levelup_bench.Course.Valid.{IsFair}
use levelup_bench.Evaluation.Traces.{Confirms, validate_reference-Confirms}
use levelup_bench.Search
use levelup_bench.Search.{unreached, out_of_fuel}
use levelup_bench.Search.Sound.{Reports, search_path-Reports}
use levelup_bench.Search.Optimal.{BestReport, search_path-BestReport}
use levelup_bench.AdaptiveTrack.{course}
use levelup_bench.AdaptiveTrack.Bounds.{course-IsBounded, transition-IsWithin}
use levelup_bench.AdaptiveTrack.Rules.{transition, battery}
use levelup_bench.MechanicTrack.Rules.{mechanic_transition}
use levelup_bench.MechanicTrack.Bounds.{IsContained, mechanic_transition-IsContained}
use levelup_bench.AdaptiveTrack.Laws.{adaptive_optimum-IsLeast, adaptive_reference-ge-optimum, fair}
use levelup_bench.AdaptiveTrack.Valid.{adaptive_track-IsFair}
use levelup_bench.ComboTrack.{combo_course, combo_transition}
use levelup_bench.ComboTrack.Bounds.{IsCharged, combo_transition-IsCharged}
use levelup_bench.ComboTrack.Laws.{combo_optimum-IsLeast, combo_reference-ge-optimum}
use levelup_bench.MechanicTrack.{mechanic_course}
use levelup_bench.MechanicTrack.Laws.{mechanic_search-IsPlayed}
use levelup_bench.Tests.Samples.{
  runtime, walk_action, sprint_action, sample_track, sample_actions, sample_track_built,
  sample_fuel, sample_optimum, sample_frontier, sample_trajectory, sample_reference, result_of,
  sample_evaluated, sample_validated, sample_eligible, forbidden_trajectory, forbidden_evaluated,
}
use levelup_bench.Tests.Courses.{
  sample_combo, combo_actions, sample_combo_built, combo_fuel, combo_optimum, combo_trajectory,
  combo_reference, combo_result, combo_validated, sample_mechanic, sample_mechanic_built,
  mechanic_fuel, charge,
}

adaptive_optimum-IsLeast_example :
    IsDelivered runtime (course sample_track) (optimal_path sample_fuel (course sample_track))
    × IsLeast runtime (course sample_track) (optimal_path sample_fuel (course sample_track))
adaptive_optimum-IsLeast_example =
    adaptive_optimum-IsLeast "battery" 4 sample_actions 0 1 1 1 0 sample_track sample_track_built
      runtime sample_fuel (omega arith)

adaptive_reference-ge-optimum_example :
    (ticks : ℕ) × Completes runtime (course sample_track) (names sample_trajectory.steps) ticks
    × (float 11 ≡ float ticks)
    × (11 ≤ ticks)
adaptive_reference-ge-optimum_example =
    adaptive_reference-ge-optimum "battery" 4 sample_actions 0 1 1 1 0 sample_track
      sample_track_built runtime sample_fuel 11 ("a2" ∷ "a3" ∷ "a2" ∷ []) (omega arith)
      sample_optimum sample_reference sample_trajectory (result_of sample_trajectory true 11)
      sample_validated

combo_optimum-IsLeast_example :
    IsDelivered runtime
      (combo_course sample_combo)
      (optimal_path combo_fuel (combo_course sample_combo))
    × IsLeast runtime
        (combo_course sample_combo)
        (optimal_path combo_fuel (combo_course sample_combo))
combo_optimum-IsLeast_example =
    combo_optimum-IsLeast 4 combo_actions 0 1 3 sample_combo sample_combo_built runtime combo_fuel
      (omega arith)

combo_reference-ge-optimum_example :
    (ticks : ℕ) × Completes runtime (combo_course sample_combo) (names combo_trajectory.steps) ticks
    × (float 10 ≡ float ticks)
    × (10 ≤ ticks)
combo_reference-ge-optimum_example =
    combo_reference-ge-optimum 4 combo_actions 0 1 3 sample_combo sample_combo_built runtime
      combo_fuel 10 ("a3" ∷ "a3" ∷ "a2" ∷ []) (omega arith) combo_optimum combo_reference
      combo_trajectory combo_result combo_validated

mechanic_search-IsPlayed_example :
    IsPlayed runtime
      (mechanic_course sample_mechanic)
      (Oracle.search_path mechanic_fuel (mechanic_course sample_mechanic) true)
mechanic_search-IsPlayed_example =
    mechanic_search-IsPlayed "cooldown" 4 sample_actions 0 1 0 0 2 sample_mechanic
      sample_mechanic_built runtime true mechanic_fuel (omega arith)

sample-IsFair : IsFair (course sample_track).actions (course sample_track).forbidden_alias
sample-IsFair = fair "battery" 4 sample_actions 0 1 1 1 0 sample_track sample_track_built

optimal-le-frontier_example : 11 ≤ 14
unfolding course course-IsBounded
optimal-le-frontier_example =
    optimal-le-frontier runtime (course sample_track) sample-IsFair refl
      (course-IsBounded sample_track) sample_fuel 11 14 ("a2" ∷ "a3" ∷ "a2" ∷ [])
      ("a1" ∷ "a1" ∷ "a2" ∷ []) (omega arith) sample_optimum sample_frontier

eligible-Completes_example :
    (ticks : ℕ) × Completes runtime (course sample_track) (names sample_trajectory.steps) ticks
    × (some (float 11) ≡ some (float ticks))
eligible-Completes_example =
    eligible-Completes runtime (course sample_track) sample-IsFair sample_trajectory
      (result_of sample_trajectory true 11) sample_evaluated sample_eligible

forbidden_not_eligible_example :
    performance_eligible_for
      (result_of forbidden_trajectory false 1)
      (course sample_track).task_spec
    ≡ false
unfolding course steps_from
forbidden_not_eligible_example =
    forbidden_not_eligible runtime (course sample_track) sample-IsFair forbidden_trajectory
      (result_of forbidden_trajectory false 1) forbidden_evaluated (inl refl)

validate_reference-Confirms_example :
    Confirms
      (environment runtime (course sample_track))
      sample_reference
      sample_trajectory
      (result_of sample_trajectory true 11)
validate_reference-Confirms_example =
    validate_reference-Confirms (environment runtime (course sample_track)) sample_reference
      sample_trajectory (result_of sample_trajectory true 11) sample_validated

search_path-Reports_example :
    Reports ⦃e = (course sample_track).same_state⦄
      (edges (course sample_track) false)
      (is_goal (course sample_track))
      (course sample_track).start_state
      (Search.search_path ⦃e = (course sample_track).same_state⦄
        (edges (course sample_track) false)
        (is_goal (course sample_track))
        100
        (course sample_track).start_state)
search_path-Reports_example =
    search_path-Reports ⦃e = (course sample_track).same_state⦄ (edges (course sample_track) false)
      (is_goal (course sample_track)) (course sample_track).start_state 100

search_path-BestReport_example :
    BestReport ⦃e = (course sample_track).same_state⦄
      (edges (course sample_track) false)
      (is_goal (course sample_track))
      (course sample_track).start_state
      (Search.search_path ⦃e = (course sample_track).same_state⦄
        (edges (course sample_track) false)
        (is_goal (course sample_track))
        100
        (course sample_track).start_state)
search_path-BestReport_example =
    search_path-BestReport ⦃e = (course sample_track).same_state⦄
      (edges (course sample_track) false) (is_goal (course sample_track))
      (course sample_track).start_state 100

adaptive_track-IsFair_example :
    (3 ≤ sample_track.target) × IsFair sample_track.actions sample_track.forbidden_alias
adaptive_track-IsFair_example =
    adaptive_track-IsFair "battery" 4 sample_actions 0 1 1 1 0 sample_track_built

combo_transition-IsCharged_example : IsCharged sample_combo (record { progress = 0; combo = 3 })
unfolding combo_transition
combo_transition-IsCharged_example =
    combo_transition-IsCharged sample_combo (record { progress = 0; combo = 2 }) charge
      (record { progress = 0; combo = 3 }) 3 refl
      (record { progress = omega arith; combo = omega arith })

mechanic_transition-IsContained_example :
    IsContained sample_mechanic (record { progress = 1; resource = 0; pressure = 1 })
unfolding mechanic_transition
mechanic_transition-IsContained_example =
    mechanic_transition-IsContained sample_mechanic
      (record { progress = 0; resource = 0; pressure = 2 }) walk_action
      (record { progress = 1; resource = 0; pressure = 1 }) 5 refl
      (record { progress = omega arith; resource = omega arith; pressure = omega arith })

transition-IsWithin_example : (2 ≤ 4) × (0 ≤ 1) × (0 ≤ 0)
unfolding transition
transition-IsWithin_example =
    transition-IsWithin battery 4 1 0 1 (record { progress = 0; resource = 1; pressure = 0 })
      sprint_action {s' = record { progress = 2; resource = 0; pressure = 0 }} {ticks = 4} refl
      (omega arith) (omega arith) (omega arith) (omega arith)
