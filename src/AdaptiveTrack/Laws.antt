-- ===== src/AdaptiveTrack/Laws.antt =====
-- The oracles of levelup/envs/adaptive_track.py and the references that levelup/evaluation.py
-- validates, on every track that the constructor accepts.
use levelup_bench.Prelude.{ℕ, ◌≤◌, ◌≡◌, refl, String, List, length, some, ok}
use levelup_bench.Core.Numbers.{float}
use levelup_bench.Core.Outcome.{BenchmarkResult}
use levelup_bench.Core.Reference.{ReferenceEntry}
use levelup_bench.Core.Trajectory.{Trajectory}
use levelup_bench.Course.{environment}
use levelup_bench.Course.Oracle.{optimal_path}
use levelup_bench.Course.Oracle.Optimum.{
  Completes, IsDelivered, IsLeast, enough_fuel, optimal_path-IsLeast,
}
use levelup_bench.Course.References.{names, validate_reference-ge-optimum}
use levelup_bench.Course.Valid.{IsFair}
use levelup_bench.Evaluation.{validate_reference}
use levelup_bench.Runtime.{Runtime}
use levelup_bench.Track.{OpaqueAction}
use levelup_bench.AdaptiveTrack.{Track, adaptive_track, course}
use levelup_bench.AdaptiveTrack.Bounds.{states, course-IsBounded}
use levelup_bench.AdaptiveTrack.Valid.{adaptive_track-IsFair}

pub fair :
    (family : String) (target : ℕ) (actions : List OpaqueAction)
    (index seed capacity resource cap : ℕ) (t : Track)
    → adaptive_track family target actions index seed capacity resource cap ≡ ok t
    → IsFair (course t).actions (course t).forbidden_alias
unfolding course
fair family target actions index seed capacity resource cap t h =
    (adaptive_track-IsFair family target actions index seed capacity resource cap h).1

module _ (family : String) (target : ℕ) (actions : List OpaqueAction)
    (index seed capacity resource cap : ℕ) (t : Track)
    (built : adaptive_track family target actions index seed capacity resource cap ≡ ok t)
    (rt : Runtime) where
  -- For every track that the constructor accepts, and as much fuel as a track of its size can
  -- need, `optimal_path` ends. Either it returns a run from the reset state that completes the task
  -- without the forbidden action, with the number of its ticks, and no such run takes fewer; or it
  -- raises a RuntimeError, and every such run takes 10 ** 18 ticks or more.
  pub adaptive_optimum-IsLeast :
      (fuel : ℕ)
      → enough_fuel (length (states t)) ≤ fuel
      → IsDelivered rt (course t) (optimal_path fuel (course t))
        × IsLeast rt (course t) (optimal_path fuel (course t))
  unfolding course-IsBounded course
  adaptive_optimum-IsLeast fuel enough =
      optimal_path-IsLeast rt (course t)
        (fair family target actions index seed capacity resource cap t built) refl
        (course-IsBounded t) fuel enough

  -- For every track that the constructor accepts, the optimum that `optimal_path` returns, with as
  -- much fuel as a track of its size can need, bounds every reference that `validate_reference`
  -- accepts from below: the actions of the trajectory run to the target without the forbidden one,
  -- and the performance that the reference claims is the number of this run's ticks, at least the
  -- optimum.
  pub adaptive_reference-ge-optimum :
      (fuel best : ℕ) (path : List String)
      → enough_fuel (length (states t)) ≤ fuel
      → optimal_path fuel (course t) ≡ some (ok (best, path))
      → (ref : ReferenceEntry) (tr : Trajectory) (r : BenchmarkResult)
      → validate_reference (environment rt (course t)) ref tr ≡ ok r
      → (ticks : ℕ) × Completes rt (course t) (names tr.steps) ticks
        × (ref.performance_value ≡ float ticks)
        × (best ≤ ticks)
  unfolding course-IsBounded course
  adaptive_reference-ge-optimum fuel best path enough found =
      validate_reference-ge-optimum rt (course t)
        (fair family target actions index seed capacity resource cap t built) refl
        (course-IsBounded t) fuel best path enough found
