-- ===== src/Tests/Held.antt =====
-- Held-out tasks and bundles of a generator that counts.
use levelup_bench.Prelude.{
  ℕ, ◌^◌, ◌≤◌, ◌≡◌, refl, [], ◌∷◌, some, ok, inl, arith, length, ◌>>=◌, All, List, true, ◌<◌,
  Option, Result,
}
use levelup_bench.Prelude.Lists.{collect, contains, to_set}
use levelup_bench.Prelude.Ranges.{upto, pairs}
use levelup_bench.Prelude.Texts.{join, decimal}
use levelup_bench.Core.Numbers.{Float, float}
use levelup_bench.Core.Faults.{Fault}
use levelup_bench.Core.Json.{no_fields}
use levelup_bench.Core.Task.{all_unique}
use levelup_bench.Core.Ladder.{check_ladder, improving, stage}
use levelup_bench.MacroTrack.Bundle.{find_trajectory}
use levelup_bench.Core.Trajectory.{check_trajectory, same_numbers, range_from, steps_from}
use levelup_bench.Course.Oracle
use levelup_bench.Course.Oracle.{edges, edge_of, is_goal, price, true_cost, conclude}
use levelup_bench.Course.Oracle.Optimum.{Completes, IsLeast, enough_fuel}
use levelup_bench.Search
use levelup_bench.Search.{loop, round, visit, relax_all, relax}
use levelup_bench.Search.Best.{lookup, cost_or}
use levelup_bench.Search.Heap.{heappop, take_least}
use levelup_bench.Track.{find_action, valid_actions, forbidden_actions}
use levelup_bench.AdaptiveTrack.{Track, adaptive_track, course}
use levelup_bench.AdaptiveTrack.Bounds.{states}
use levelup_bench.AdaptiveTrack.Rules.{transition, family_of_name}
use levelup_bench.AdaptiveTrack.Generation.{build_adaptive_track, make_adaptive_track, layout}
use levelup_bench.Sampling.{random_aliases, alias_text, unpack}
use levelup_bench.Bundles.{
  Bundle, Paired, Costs, held_out, both_costs, same_path, bundle_of, track_bundle, collect_bundles,
  bundled_trajectory,
}
use levelup_bench.Bundles.Ends.{IsMeasured, held_out-Ends}
use levelup_bench.Bundles.Families.{held_out_adaptive_tasks, held_out_adaptive_tasks-IsLeast}
use levelup_bench.Bundles.Gaps.{HasGap, IsBundled, collect_bundles-IsBundled}
use levelup_bench.Tests.Generated.{counting}
use levelup_bench.Tests.Samples.{
  runtime, sample_track, sample_fuel, sample_optimum, sample_frontier,
}

abbrev held_fuel : ℕ
held_fuel = 10 ^ 30

sample_held :
    (p : Paired Track Float) × (held_out_adaptive_tasks counting 9 held_fuel 2 "battery" 1 1
      ≡ some (ok (p ∷ [])))
unfolding held_out_adaptive_tasks held_out both_costs same_path make_adaptive_track
    build_adaptive_track layout adaptive_track family_of_name all_unique random_aliases alias_text
    unpack to_set contains join decimal forbidden_actions Oracle.search_path Search.search_path loop
    round visit relax_all relax edges edge_of is_goal price true_cost conclude course transition
    find_action valid_actions heappop take_least lookup cost_or collect float
sample_held = (_, refl)

held_enough : enough_fuel (length (states sample_held.0.track)) ≤ held_fuel
unfolding sample_held enough_fuel states upto pairs
held_enough = omega arith

held_out_adaptive_tasks-IsLeast_example :
    (best : ℕ) × (sample_held.0.value ≡ float best)
    × (gap : HasGap held_fuel (course sample_held.0.track) best) × Completes runtime
        (course sample_held.0.track)
        gap.path
        best
    × IsLeast runtime (course sample_held.0.track) (some (ok (best, gap.path)))
held_out_adaptive_tasks-IsLeast_example =
    held_out_adaptive_tasks-IsLeast counting 9 held_fuel 2 runtime "battery" 1 1
      (sample_held.0 ∷ []) sample_held.1 sample_held.0 (inl refl) held_enough

-- Every index gives the sample track.
abbrev the_sample : ℕ → Option (Result Fault Track)
the_sample i = some (ok sample_track)

abbrev sample_costs : Costs
sample_costs = record {
  frontier_cost = 14;
  frontier_actions = "a1" ∷ "a1" ∷ "a2" ∷ [];
  optimum_cost = 11;
  optimum_actions = "a2" ∷ "a3" ∷ "a2" ∷ [];
}

sample_costs_found : both_costs sample_fuel (course sample_track) ≡ some (ok sample_costs)
unfolding both_costs
sample_costs_found = rw (sample_frontier, sample_optimum) refl

sample_bundle_of :
    (b : Bundle) × (bundle_of
        ((course sample_track).task_spec).task_id
        (λ s. no_fields)
        sample_costs
      ≡ ok b)
unfolding bundle_of check_trajectory check_ladder improving same_path same_numbers range_from
    steps_from all_unique contains join float to_set course decimal
sample_bundle_of = (_, refl)

abbrev sample_pair : Paired Track Bundle
sample_pair = record { track = sample_track; value = sample_bundle_of.0 }

sample_bundled :
    track_bundle the_sample course sample_fuel (λ s. no_fields) 0 ≡ some (ok sample_pair)
unfolding track_bundle
sample_bundled = rw (sample_costs_found, sample_bundle_of.1) refl

sample_collected :
    collect_bundles the_sample course sample_fuel (λ s. no_fields) 2 1 0 []
    ≡ some (ok (sample_pair ∷ []))
unfolding collect_bundles
sample_collected = rw (collect_bundles, sample_bundled) refl

collect_bundles-IsBundled_example :
    (length (sample_pair ∷ []) ≡ 1)
    × All (IsBundled the_sample course sample_fuel (λ s. no_fields)) (sample_pair ∷ [])
collect_bundles-IsBundled_example =
    collect_bundles-IsBundled the_sample course sample_fuel (λ s. no_fields) 2 1 (sample_pair ∷ [])
      sample_collected

sample_trajectory_for :
    (bundled_trajectory sample_bundle_of.0 "optimum" >>= λ t. ok t.steps)
    ≡ ok (steps_from 0 sample_costs.optimum_actions)
unfolding sample_bundle_of bundled_trajectory stage find_trajectory
sample_trajectory_for = refl

sample-IsMeasured : (i : ℕ) → i < 1 → IsMeasured the_sample course sample_fuel (λ j. true) i
unfolding same_path
sample-IsMeasured i h = record {
  track = sample_track;
  costs = sample_costs;
  made = refl;
  found = sample_costs_found;
  gap = refl;
}

held_out-Ends_example :
    (result : List (Paired Track Float)) × (held_out the_sample course sample_fuel 2 1 0 []
      ≡ some (ok result))
held_out-Ends_example =
    held_out-Ends the_sample course sample_fuel (λ j. true) 1 sample-IsMeasured 1 1 0 []
      (omega arith) (omega arith)
