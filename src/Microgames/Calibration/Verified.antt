-- ===== src/Microgames/Calibration/Verified.antt =====
-- The references of the calibration ladders, against all that are validated.
use levelup_bench.Prelude.{
  ℕ, ◌≤◌, String, ◌≡◌, ◌∙◌, refl, sym, Bool, true, false, List, [], ◌∷◌, none, some, Result, ok,
}
use levelup_bench.Prelude.Int.{ℤ, pos}
use levelup_bench.Prelude.Texts.{join, decimal}
use levelup_bench.Prelude.Lists.{contains, to_set}
use levelup_bench.Core.Faults.{Fault}
use levelup_bench.Core.Json.{JsonValue, int}
use levelup_bench.Core.Numbers.{float}
use levelup_bench.Core.Outcome.{
  ConstraintOutcome, BenchmarkResult, performance_eligible_for, valid_for, same_set, subset,
  all_passed, check_result,
}
use levelup_bench.Core.Reference.{ReferenceEntry}
use levelup_bench.Core.Task.{all_unique}
use levelup_bench.Core.Trajectory.{
  oracle, Trajectory, check_trajectory, same_numbers, range_from, steps_from,
}
use levelup_bench.Evaluation.{
  evaluate_trajectory, validate_reference, replay_steps, verify_all, report,
}
use levelup_bench.Evaluation.Traces.{Confirms, validate_reference-Confirms}
use levelup_bench.Runtime.{Runtime}
use levelup_bench.Track.{verify_never_used}
use levelup_bench.Microgames.Detour.{
  start_tile, goal_tile, DetourSession, detour_environment, avoid_forbidden_tile,
  verify_never_visited, visits, find_move, detour_step, detour_reset,
}
use levelup_bench.Microgames.Detour.Bounds.{detour-ge-six}
use levelup_bench.Microgames.Switchboard.{
  switch_environment, switch_task_spec, switch_step, switch_reset, find_effect,
}
use levelup_bench.Microgames.Switchboard.Bounds.{switchboard-ge-two}
use levelup_bench.Microgames.Calibration.{
  micro_trajectory, detour_oracle, switchboard_oracle, switchboard_invalid_shortcut, detour_entry,
  switchboard_entry,
}

module _ (rt : Runtime) where
  switchboard_validates :
      (t : Trajectory) × (r : BenchmarkResult) × (switchboard_oracle ≡ ok t)
      × (validate_reference (switch_environment rt) (switchboard_entry t) t ≡ ok r)
  unfolding switchboard_oracle check_trajectory same_numbers range_from steps_from
      validate_reference evaluate_trajectory replay_steps verify_all verify_never_used switch_step
      switch_reset find_effect contains to_set performance_eligible_for valid_for same_set subset
      all_passed check_result all_unique float
  switchboard_validates = (_, _, refl, refl)

  -- The oracle trajectory of the switchboard is well formed, its reference is validated at two presses, and no reference that is validated claims fewer.
  pub switchboard_oracle-IsOptimal :
      (t : Trajectory) × (r : BenchmarkResult) × (switchboard_oracle ≡ ok t)
      × (validate_reference (switch_environment rt) (switchboard_entry t) t ≡ ok r)
      × ((ref : ReferenceEntry) (u : Trajectory) (v : BenchmarkResult)
          → validate_reference (switch_environment rt) ref u ≡ ok v
          → (presses : ℕ) × (ref.performance_value ≡ float presses) × (2 ≤ presses))
  switchboard_oracle-IsOptimal =
      let (t, r, made, validated) = switchboard_validates in
      (
        t,
        r,
        made,
        validated,
        λ ref u v h.
            let c : Confirms (switch_environment rt) ref u v =
              validate_reference-Confirms (switch_environment rt) ref u v h in
            let (presses, performs, least) =
              switchboard-ge-two rt u none none v c.evaluates c.eligible in
            (
              presses,
              (let e : some ref.performance_value ≡ some (float presses) =
                    sym c.claimed ∙ performs in
                  cc e),
              least,
            ),
      )

  -- The shortcut by the red switch is well formed, replays and completes in one press, and is not eligible.
  pub switchboard_shortcut_not_eligible :
      (t : Trajectory) × (r : BenchmarkResult) × (switchboard_invalid_shortcut ≡ ok t)
      × (evaluate_trajectory (switch_environment rt) t none none ≡ ok r)
      × (r.completed ≡ true)
      × (performance_eligible_for r switch_task_spec ≡ false)
  unfolding switchboard_invalid_shortcut check_trajectory same_numbers range_from steps_from
      evaluate_trajectory replay_steps verify_all verify_never_used switch_step switch_reset
      find_effect contains to_set performance_eligible_for valid_for same_set subset all_passed
      check_result all_unique float
  switchboard_shortcut_not_eligible = (_, _, refl, refl, refl, refl)

-- The final sessions of the two trajectories on the grid.
abbrev pub detour_final : DetourSession
detour_final = record {
  position = goal_tile;
  visited =
      start_tile
      ∷ record { x = 0; y = 0 }
      ∷ record { x = 1; y = 0 }
      ∷ record { x = 2; y = 0 }
      ∷ record { x = 3; y = 0 }
      ∷ record { x = 4; y = 0 }
      ∷ goal_tile
      ∷ [];
  action_count = 6;
}

abbrev pub detour_trajectory : Trajectory
detour_trajectory =
    micro_trajectory "micro.detour_grid.oracle.v1" "micro.detour_grid.v1"
      ("up" ∷ "right" ∷ "right" ∷ "right" ∷ "right" ∷ "down" ∷ []) oracle

abbrev pub detour_outcomes : Bool → String → List ConstraintOutcome
detour_outcomes passed evidence =
    record { constraint_id = "avoid_forbidden_tile"; passed = passed; evidence = some evidence }
    ∷ []

module _ (rt : Runtime) (int_of : JsonValue → Result Fault ℤ)
    (int_of_int : (n : ℤ) → int_of (int n) ≡ ok n) where
  verify_all-detour :
      verify_all (detour_environment rt int_of) detour_final (avoid_forbidden_tile ∷ [])
      ≡ ok (detour_outcomes true "position (2, 1) was never visited")
  unfolding verify_all verify_never_visited visits join decimal
  verify_all-detour = rw (int_of_int (pos 2), int_of_int (pos 1)) refl

  pub detour_validates :
      validate_reference
        (detour_environment rt int_of)
        (detour_entry detour_trajectory)
        detour_trajectory
      ≡ ok (
          report
            (detour_environment rt int_of)
            detour_trajectory
            none
            none
            detour_final
            true
            (detour_outcomes true "position (2, 1) was never visited"))
  unfolding validate_reference evaluate_trajectory replay_steps steps_from detour_step detour_reset
      find_move check_result performance_eligible_for valid_for same_set subset all_passed contains
      all_unique to_set float
  detour_validates = rw (verify_all-detour, evaluate_trajectory, validate_reference) refl

  -- The oracle trajectory of the grid is well formed, its reference is validated at six actions, and no reference that is validated claims fewer, where `int` returns a whole number as it is.
  pub detour_oracle-IsOptimal :
      (t : Trajectory) × (r : BenchmarkResult) × (detour_oracle ≡ ok t)
      × (validate_reference (detour_environment rt int_of) (detour_entry t) t ≡ ok r)
      × ((ref : ReferenceEntry) (u : Trajectory) (v : BenchmarkResult)
          → validate_reference (detour_environment rt int_of) ref u ≡ ok v
          → (actions : ℕ) × (ref.performance_value ≡ float actions) × (6 ≤ actions))
  unfolding detour_oracle check_trajectory same_numbers range_from steps_from
  detour_oracle-IsOptimal = (
    detour_trajectory,
    _,
    refl,
    detour_validates,
    λ ref u v h.
        let c : Confirms (detour_environment rt int_of) ref u v =
          validate_reference-Confirms (detour_environment rt int_of) ref u v h in
        let (actions, performs, least) =
          detour-ge-six rt int_of int_of_int u none none v c.evaluates c.eligible in
        (
          actions,
          (let e : some ref.performance_value ≡ some (float actions) = sym c.claimed ∙ performs in
              cc e),
          least,
        ),
  )
