-- ===== src/ComboTrack/Laws.antt =====
-- The oracles of levelup/envs/challenge_track.py and the references that levelup/evaluation.py
-- validates, on every track that the constructor accepts.
use levelup_bench.Prelude.{ℕ, ◌≤◌, ◌≡◌, refl, String, List, length, some, ok}
use levelup_bench.Core.Numbers.{float}
use levelup_bench.Core.Outcome.{BenchmarkResult}
use levelup_bench.Core.Reference.{ReferenceEntry}
use levelup_bench.Core.Trajectory.{Trajectory}
use levelup_bench.Course.{environment}
use levelup_bench.Course.Oracle.{optimal_path}
use levelup_bench.Course.Oracle.Optimum.{
  Completes, IsDelivered, IsLeast, enough_fuel, optimal_path-IsLeast,
}
use levelup_bench.Course.References.{names, validate_reference-ge-optimum}
use levelup_bench.Course.Valid.{IsFair}
use levelup_bench.Evaluation.{validate_reference}
use levelup_bench.Runtime.{Runtime}
use levelup_bench.Track.{OpaqueAction}
use levelup_bench.ComboTrack.{ComboTrack, combo_track, combo_course}
use levelup_bench.ComboTrack.Bounds.{combo_states, combo_course-IsBounded}
use levelup_bench.ComboTrack.Valid.{combo_track-IsFair}

fair :
    (target : ℕ) (actions : List OpaqueAction) (index seed cap : ℕ) (t : ComboTrack)
    → combo_track target actions index seed cap ≡ ok t
    → IsFair (combo_course t).actions (combo_course t).forbidden_alias
unfolding combo_course
fair target actions index seed cap t h = (combo_track-IsFair target actions index seed cap h).2

module _ (target : ℕ) (actions : List OpaqueAction) (index seed cap : ℕ) (t : ComboTrack)
    (built : combo_track target actions index seed cap ≡ ok t) (rt : Runtime) where
  -- For every track that the constructor accepts, and as much fuel as a track of its size can
  -- need, `optimal_path` ends. Either it returns a run from the reset state that completes the task
  -- without the forbidden action, with the number of its ticks, and no such run takes fewer; or it
  -- raises a RuntimeError, and every such run takes 10 ** 18 ticks or more.
  pub combo_optimum-IsLeast :
      (fuel : ℕ)
      → enough_fuel (length (combo_states t)) ≤ fuel
      → IsDelivered rt (combo_course t) (optimal_path fuel (combo_course t))
        × IsLeast rt (combo_course t) (optimal_path fuel (combo_course t))
  unfolding combo_course-IsBounded combo_course
  combo_optimum-IsLeast fuel enough =
      optimal_path-IsLeast rt (combo_course t) (fair target actions index seed cap t built) refl
        (combo_course-IsBounded t) fuel enough

  -- For every track that the constructor accepts, the optimum that `optimal_path` returns, with as
  -- much fuel as a track of its size can need, bounds every reference that `validate_reference`
  -- accepts from below: the actions of the trajectory run to the target without the forbidden one,
  -- and the performance that the reference claims is the number of this run's ticks, at least the
  -- optimum.
  pub combo_reference-ge-optimum :
      (fuel best : ℕ) (path : List String)
      → enough_fuel (length (combo_states t)) ≤ fuel
      → optimal_path fuel (combo_course t) ≡ some (ok (best, path))
      → (ref : ReferenceEntry) (tr : Trajectory) (r : BenchmarkResult)
      → validate_reference (environment rt (combo_course t)) ref tr ≡ ok r
      → (ticks : ℕ) × Completes rt (combo_course t) (names tr.steps) ticks
        × (ref.performance_value ≡ float ticks)
        × (best ≤ ticks)
  unfolding combo_course-IsBounded combo_course
  combo_reference-ge-optimum fuel best path enough found =
      validate_reference-ge-optimum rt (combo_course t) (fair target actions index seed cap t built)
        refl (combo_course-IsBounded t) fuel best path enough found
