-- ===== src/Tests/Micro.antt =====
-- The theorems on the microgames, with Python's `int` as far as JSON values go.
use levelup_bench.Prelude.{
  ℕ, ◌≤◌, ◌≡◌, refl, true, false, none, some, inl, inr, In, length, ok, raise, Result,
}
use Prim.Native.Nat.{◌/◌}
use levelup_bench.Prelude.Int.{ℤ, pos}
use levelup_bench.Core.Faults.{Fault, type_error, value_error, invalid_field}
use levelup_bench.Core.Json.{JsonValue, null, boolean, int, ratio, text, array, object}
use levelup_bench.Core.Numbers.{float}
use levelup_bench.Core.Outcome.{BenchmarkResult}
use levelup_bench.Core.Reference.{ReferenceEntry}
use levelup_bench.Core.Trajectory.{
  Trajectory, check_trajectory, same_numbers, range_from, steps_from,
}
use levelup_bench.Evaluation.{validate_reference, report}
use levelup_bench.Evaluation.Traces.{Confirms, validate_reference-Confirms}
use levelup_bench.Microgames.Detour.{detour_environment, start_tile, goal_tile, forbidden_tile}
use levelup_bench.Microgames.Detour.Routes.{route, destination, detour_eligible-Avoids}
use levelup_bench.Microgames.Switchboard.{switch_environment}
use levelup_bench.Microgames.Calibration.{
  detour_oracle, detour_invalid_shortcut, switchboard_oracle, detour_entry, switchboard_entry,
}
use levelup_bench.Microgames.Calibration.Verified.{
  detour_oracle-IsOptimal, detour_final, detour_trajectory, detour_outcomes, detour_validates,
  switchboard_oracle-IsOptimal,
}
use levelup_bench.Tests.Samples.{runtime}

abbrev plain_int : JsonValue → Result Fault ℤ
plain_int null = raise type_error
plain_int (boolean true) = ok (pos 1)
plain_int (boolean false) = ok (pos 0)
plain_int (int n) = ok n
plain_int (ratio a b) = ok (pos (a / b))
plain_int (text s) = raise (value_error invalid_field)
plain_int (array xs) = raise type_error
plain_int (object fs) = raise type_error

detour_oracle-IsOptimal_example :
    (t : Trajectory) × (r : BenchmarkResult) × (detour_oracle ≡ ok t)
    × (validate_reference (detour_environment runtime plain_int) (detour_entry t) t ≡ ok r)
    × ((ref : ReferenceEntry) (u : Trajectory) (v : BenchmarkResult)
        → validate_reference (detour_environment runtime plain_int) ref u ≡ ok v
        → (actions : ℕ) × (ref.performance_value ≡ float actions) × (6 ≤ actions))
detour_oracle-IsOptimal_example = detour_oracle-IsOptimal runtime plain_int (λ n. refl)

abbrev detour_result : BenchmarkResult
detour_result =
    report (detour_environment runtime plain_int) detour_trajectory none none detour_final true
      (detour_outcomes true "position (2, 1) was never visited")

detour_confirmed :
    Confirms
      (detour_environment runtime plain_int)
      (detour_entry detour_trajectory)
      detour_trajectory
      detour_result
detour_confirmed =
    validate_reference-Confirms (detour_environment runtime plain_int)
      (detour_entry detour_trajectory) detour_trajectory detour_result
      (detour_validates runtime plain_int (λ n. refl))

detour_eligible-Avoids_example :
    (¬ In forbidden_tile (route start_tile detour_trajectory.steps))
    × (destination start_tile detour_trajectory.steps ≡ goal_tile)
    × (detour_result.performance_value ≡ some (float (length detour_trajectory.steps)))
detour_eligible-Avoids_example =
    detour_eligible-Avoids runtime plain_int (λ n. refl) detour_trajectory none none detour_result
      detour_confirmed.evaluates detour_confirmed.eligible

-- The shortcut of the calibration crosses the forbidden tile.
shortcut_crosses :
    (t : Trajectory) × (detour_invalid_shortcut ≡ ok t)
    × In forbidden_tile (route start_tile t.steps)
unfolding detour_invalid_shortcut check_trajectory same_numbers range_from steps_from
shortcut_crosses = (_, refl, inr (inl refl))

switchboard_oracle-IsOptimal_example :
    (t : Trajectory) × (r : BenchmarkResult) × (switchboard_oracle ≡ ok t)
    × (validate_reference (switch_environment runtime) (switchboard_entry t) t ≡ ok r)
    × ((ref : ReferenceEntry) (u : Trajectory) (v : BenchmarkResult)
        → validate_reference (switch_environment runtime) ref u ≡ ok v
        → (presses : ℕ) × (ref.performance_value ≡ float presses) × (2 ≤ presses))
switchboard_oracle-IsOptimal_example = switchboard_oracle-IsOptimal runtime
