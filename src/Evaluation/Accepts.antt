-- ===== src/Evaluation/Accepts.antt =====
-- What an evaluation takes to succeed.
use levelup_bench.Prelude.{
  ◌≡◌, ◌⊎◌, refl, String, Bool, true, false, not, ◌&&◌, List, [], ◌∷◌, Option, string_eq, ◌==◌, inl,
  inr, ok, Option-cases,
}
use levelup_bench.Core.Ladder.Order.{all_unique_iff}
use levelup_bench.Core.Outcome.{EfficiencyMetrics, BenchmarkResult, check_result, outcome_ids}
use levelup_bench.Core.Task.{all_unique}
use levelup_bench.Core.Trajectory.{Trajectory, TrajectoryStep}
use levelup_bench.Environment.{Environment}
use levelup_bench.Evaluation.{is_empty, seed_or, report, evaluate_trajectory}
use levelup_bench.Evaluation.Traces.{
  Trace, Agrees-mismatches, Trace-replay_steps, Judged-verify_all, Replayed,
  evaluate_trajectory-Replayed, going_at_reset,
}

module _ (env : Environment) where
  Trace-going :
      (xs : List TrajectoryStep) (s : env.State) (c : Bool) (s' : env.State) (c' : Bool)
      → Trace env xs s c s' c'
      → (is_empty xs ≡ true) ⊎ (c ≡ false)
  Trace-going [] s c s' c' w = inl refl
  Trace-going (x ∷ xs) s c s' c' w = inr w.0

  Replayed-evaluate_trajectory :
      (t : Trajectory) (run_id : Option String) (m : Option EfficiencyMetrics) (r : BenchmarkResult)
      → Replayed env t r
      → (r' : BenchmarkResult) × (evaluate_trajectory env t run_id m ≡ ok r')
  unfolding evaluate_trajectory check_result
  Replayed-evaluate_trajectory t run_id m r w =
      let own : (t.task_id == env.task_spec.task_id) ≡ true =
        (string_eq.beq_iff _ _).1 w.own_task in
      let seed : seed_or t.environment_seed env.task_spec.environment.seed ≡ w.seed =
        elim (Option-cases t.environment_seed) [
          | inl missing ↦ rw missing (rw (w.task_seed missing) refl)
          | inr (n, given) ↦ rw given (rw (w.own_seed n given) refl)
        ] in
      let resets : env.reset (seed_or t.environment_seed env.task_spec.environment.seed)
          ≡ ok (w.start, w.initial) =
        rw seed w.resets in
      let going : (not (is_empty t.steps) && w.initial.completed) ≡ false =
        going_at_reset (is_empty t.steps) w.initial.completed
          (Trace-going t.steps w.start w.initial.completed w.final r.completed w.replays) in
      let replays =
        Trace-replay_steps env t.steps w.start w.initial.completed w.final r.completed w.replays in
      let agrees = Agrees-mismatches t.final_state_hash (env.state_hash w.final) w.agrees in
      let judged =
        Judged-verify_all env w.final env.task_spec.constraints r.constraint_outcomes w.judged in
      let unique : all_unique (outcome_ids r.constraint_outcomes) ≡ true =
        (all_unique_iff _).1 w.differing in
      (
        report env t run_id m w.final r.completed r.constraint_outcomes,
        rw (own, resets, going, replays, agrees, judged, unique) refl,
      )

  -- An evaluation that returns has replayed the whole trajectory from the reset with its own seed, or the task's where it has none, none of it after completion and every recorded hash confirmed, on the task that it names; its outcomes are what the environment says of each constraint in the final state, in order and with different ids, and it reports the replay's own completion, value and hash. Where all this holds of a result, the evaluation returns.
  pub evaluate_trajectory_branches :
      (t : Trajectory) (run_id : Option String) (m : Option EfficiencyMetrics) (r : BenchmarkResult)
      → (evaluate_trajectory env t run_id m ≡ ok r → Replayed env t r)
        × (Replayed env t r → (r' : BenchmarkResult) × (evaluate_trajectory env t run_id m ≡ ok r'))
  evaluate_trajectory_branches t run_id m r =
      (evaluate_trajectory-Replayed env t run_id m r, Replayed-evaluate_trajectory t run_id m r)
