-- ===== src/Evaluation/Invariants.antt =====
-- Properties of the states that an evaluation keeps from the reset to the final state.
use levelup_bench.Prelude.{
  ℕ, ◌≡◌, ◌∙◌, ap, subst, Bool, true, false, String, List, [], ◌∷◌, Option, none, some, ok,
  if◌then◌else◌, string_eq,
}
use levelup_bench.Core.Outcome.{BenchmarkResult, EfficiencyMetrics, performance_eligible_for}
use levelup_bench.Core.Outcome.Validity.{eligible_parts, IsSatisfied}
use levelup_bench.Core.Trajectory.{Trajectory, TrajectoryStep, ActionRecord}
use levelup_bench.Environment.{Environment, StepOutcome}
use levelup_bench.Evaluation.{evaluate_trajectory, verify_all}
use levelup_bench.Evaluation.Traces.{
  Trace, Judged-verify_all, Replayed, evaluate_trajectory-Replayed,
}

module _ (env : Environment) (Inv : env.State → Bool → Type 0) where
  -- The property holds of the state and the completion that a reset or a step returns.
  pub record Keeps : Type 0 where
    pub at_reset :
        (seed : Option ℕ) (s : env.State) (o : StepOutcome)
        → env.reset seed ≡ ok (s, o)
        → Inv s o.completed
    pub at_step :
        (s : env.State) (a : ActionRecord) (s' : env.State) (o : StepOutcome)
        → Inv s false
        → env.step s a ≡ ok (s', o)
        → Inv s' o.completed

  pub Trace-keeps :
      Keeps
      → (xs : List TrajectoryStep) (s : env.State) (c : Bool) (s' : env.State) (c' : Bool)
      → Trace env xs s c s' c'
      → Inv s c
      → Inv s' c'
  Trace-keeps k [] s c s' c' (p, q) h = subst (λ b. Inv s' b) q (subst (λ t. Inv t c) p h)
  Trace-keeps k (x ∷ xs) s c s' c' (going, next, o, stepped, agrees, rest) h =
      Trace-keeps k xs next o.completed s' c' rest
        (k.at_step s x.action next o (subst (λ b. Inv s b) going h) stepped)

  -- A final state with the property, complete, whose objective is the result's performance and whose constraints have passed.
  pub record Achieved (r : BenchmarkResult) : Type 0 where
    pub final : env.State
    pub holds : Inv final true
    pub performs : r.performance_value ≡ some (env.objective_value final)
    pub verifies : verify_all env final env.task_spec.constraints ≡ ok r.constraint_outcomes
    pub satisfied : IsSatisfied r env.task_spec

  pub evaluate_trajectory-Achieved :
      Keeps
      → (t : Trajectory) (run_id : Option String) (m : Option EfficiencyMetrics)
        (r : BenchmarkResult)
      → evaluate_trajectory env t run_id m ≡ ok r
      → performance_eligible_for r env.task_spec ≡ true
      → Achieved r
  evaluate_trajectory-Achieved k t run_id m r h eligible =
      let p : Replayed env t r = evaluate_trajectory-Replayed env t run_id m r h in
      let (completed, satisfied) = eligible_parts r env.task_spec eligible in
      record {
        final = p.final;
        holds =
            subst (λ b. Inv p.final b) completed
              (Trace-keeps k t.steps p.start p.initial.completed p.final r.completed p.replays
                (k.at_reset _ p.start p.initial p.resets));
        performs =
            p.performs
            ∙ ap (λ (b : Bool). if b then some (env.objective_value p.final) else none) completed;
        verifies =
            Judged-verify_all env p.final env.task_spec.constraints r.constraint_outcomes p.judged;
        satisfied = satisfied;
      }
