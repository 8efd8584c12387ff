-- ===== src/MechanicTrack/Laws.antt =====
-- The oracles of levelup/envs/mechanictrack.py, on every track that the constructor accepts.
use levelup_bench.Prelude.{ℕ, ◌≤◌, ◌≡◌, String, Bool, List, length, ok}
use levelup_bench.Course.Oracle.{search_path}
use levelup_bench.Course.Oracle.Optimum.{IsPlayed, enough_fuel, search_path-IsPlayed}
use levelup_bench.Course.Valid.{IsFair}
use levelup_bench.Runtime.{Runtime}
use levelup_bench.Track.{OpaqueAction}
use levelup_bench.MechanicTrack.{mechanic_track, mechanic_course}
use levelup_bench.MechanicTrack.Rules.{MechanicTrack}
use levelup_bench.MechanicTrack.Bounds.{mechanic_states, mechanic_course-IsBounded}
use levelup_bench.MechanicTrack.Valid.{mechanic_track-IsFair}

fair :
    (family : String) (target : ℕ) (actions : List OpaqueAction)
    (index seed capacity resource cap : ℕ) (t : MechanicTrack)
    → mechanic_track family target actions index seed capacity resource cap ≡ ok t
    → IsFair (mechanic_course t).actions (mechanic_course t).forbidden_alias
unfolding mechanic_course
fair family target actions index seed capacity resource cap t h =
    (mechanic_track-IsFair family target actions index seed capacity resource cap h).1

-- For every track that the constructor accepts, and as much fuel as a track of its size can need,
-- `optimal_path` and `frontier_path` end. Unless they raise a RuntimeError, they return a run from
-- the reset state that completes the task without the forbidden action, and the number of its ticks.
pub mechanic_search-IsPlayed :
    (family : String) (target : ℕ) (actions : List OpaqueAction)
    (index seed capacity resource cap : ℕ) (t : MechanicTrack)
    → mechanic_track family target actions index seed capacity resource cap ≡ ok t
    → (rt : Runtime) (penalize : Bool) (fuel : ℕ) → enough_fuel (length (mechanic_states t)) ≤ fuel
    → IsPlayed rt (mechanic_course t) (search_path fuel (mechanic_course t) penalize)
unfolding mechanic_course-IsBounded mechanic_course
mechanic_search-IsPlayed family target actions index seed capacity resource cap t built rt penalize
      fuel enough =
    search_path-IsPlayed rt (mechanic_course t)
      (fair family target actions index seed capacity resource cap t built)
      (mechanic_course-IsBounded t) penalize fuel enough
