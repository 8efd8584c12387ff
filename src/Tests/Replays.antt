-- ===== src/Tests/Replays.antt =====
-- The theorems on replays, applied to trajectories of the sample track that record hashes.
use levelup_bench.Prelude.{
  String, ◌≡◌, ◌↔◌, refl, Bool, true, false, List, [], ◌∷◌, none, some, map, ok, raise,
}
use levelup_bench.Prelude.Lists.{collect}
use levelup_bench.Core.Faults.{replay_error, state_hash_mismatch, after_completion}
use levelup_bench.Core.Outcome.{BenchmarkResult}
use levelup_bench.Core.Trajectory.{TrajectoryStep, steps_from}
use levelup_bench.Course.{
  Session, fresh_session, environment, step, outcome, take_action, available_actions, state_hash,
}
use levelup_bench.Environment.{Environment}
use levelup_bench.Evaluation.{replay_steps, evaluate_trajectory}
use levelup_bench.Evaluation.Traces.{Trace, Replayed}
use levelup_bench.Evaluation.Stops.{FailsAt, replay_steps_branches}
use levelup_bench.Evaluation.Accepts.{evaluate_trajectory_branches}
use levelup_bench.Track.{find_action}
use levelup_bench.AdaptiveTrack.{course}
use levelup_bench.AdaptiveTrack.Rules.{transition}
use levelup_bench.Tests.Samples.{runtime, sample_track, sample_trajectory, result_of}

abbrev sample_environment : Environment
sample_environment = environment runtime (course sample_track)

-- The steps with a hash that each records.
abbrev hashed_steps : String → List TrajectoryStep
hashed_steps hash =
    map (λ (s : TrajectoryStep). record s { state_hash = some hash })
      (steps_from 0 ("a2" ∷ "a3" ∷ "a2" ∷ []))

sample_replayed :
    (p : Session (course sample_track).State × Bool) × (replay_steps sample_environment
        (hashed_steps "hash")
        (fresh_session (course sample_track))
        false
      ≡ ok p)
unfolding replay_steps step outcome state_hash take_action available_actions course transition
    find_action steps_from collect
sample_replayed = (_, refl)

sample_mismatch :
    replay_steps sample_environment
      (hashed_steps "other")
      (fresh_session (course sample_track))
      false
    ≡ raise (replay_error state_hash_mismatch)
unfolding replay_steps step outcome state_hash take_action available_actions course transition
    find_action steps_from collect
sample_mismatch = refl

replay_steps_branches_example :
    ((replay_steps sample_environment
          (hashed_steps "hash")
          (fresh_session (course sample_track))
          false
        ≡ ok (sample_replayed.0.0, sample_replayed.0.1))
      ↔ Trace sample_environment
          (hashed_steps "hash")
          (fresh_session (course sample_track))
          false
          sample_replayed.0.0
          sample_replayed.0.1)
    × ((replay_steps sample_environment
            (hashed_steps "hash")
            (fresh_session (course sample_track))
            false
          ≡ raise (replay_error after_completion))
        ↔ FailsAt sample_environment
            (hashed_steps "hash")
            (fresh_session (course sample_track))
            false
            (replay_error after_completion))
replay_steps_branches_example =
    replay_steps_branches sample_environment (hashed_steps "hash")
      (fresh_session (course sample_track)) false sample_replayed.0.0 sample_replayed.0.1
      (replay_error after_completion)

evaluate_trajectory_branches_example :
    (evaluate_trajectory sample_environment sample_trajectory none none
        ≡ ok (result_of sample_trajectory true 11)
      → Replayed sample_environment sample_trajectory (result_of sample_trajectory true 11))
    × (Replayed sample_environment sample_trajectory (result_of sample_trajectory true 11)
        → (r : BenchmarkResult) × (evaluate_trajectory sample_environment sample_trajectory none
              none
            ≡ ok r))
evaluate_trajectory_branches_example =
    evaluate_trajectory_branches sample_environment sample_trajectory none none
      (result_of sample_trajectory true 11)
