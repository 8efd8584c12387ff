-- ===== src/MacroTrack/Bounds.antt =====
-- Results and references on a MacroTrack, against `optimum_value`.
use levelup_bench.Prelude.{
  ℕ, ◌≤◌, ◌≡◌, ◌∙◌, sym, subst, refl, String, true, not, List, [], ◌∷◌, Option, none, some,
  contains, not-In_of_contains, In, inl, arith, ok, ok-injective, eqb_iff, string_eq,
}
use levelup_bench.Core.Numbers.{float}
use levelup_bench.Core.Outcome.{
  BenchmarkResult, ConstraintOutcome, EfficiencyMetrics, performance_eligible_for,
}
use levelup_bench.Core.Reference.{ReferenceEntry}
use levelup_bench.Core.Trajectory.{Trajectory}
use levelup_bench.Evaluation.{evaluate_trajectory, validate_reference, verify_all}
use levelup_bench.Evaluation.Traces.{Confirms, validate_reference-Confirms}
use levelup_bench.Evaluation.Invariants.{Achieved, evaluate_trajectory-Achieved}
use levelup_bench.Runtime.{Runtime}
use levelup_bench.Track.{verify_never_used}
use levelup_bench.MacroTrack.{
  MacroTrack, MacroSession, macro_environment, macro_task_spec, macro_objective, never_warp,
}
use levelup_bench.MacroTrack.Steps.{IsSession, IsSession-kept}
use levelup_bench.MacroTrack.Oracle.{optimum_value}
use levelup_bench.MacroTrack.Oracle.Routes.{Route}
use levelup_bench.MacroTrack.Oracle.Costs.{optimum_value-IsLeast}

module _ (rt : Runtime) (t : MacroTrack) where
  verified :
      (g : MacroSession) (outcomes : List ConstraintOutcome)
      → verify_all (macro_environment rt t) g (never_warp ∷ []) ≡ ok outcomes
      → (o : ConstraintOutcome) × (outcomes ≡ o ∷ []) × (o.passed ≡ not (contains "warp" g.actions))
  unfolding verify_all verify_never_used
  verified g outcomes h = (_, sym (ok-injective h), refl)

  -- An eligible result comes of a path to the checkpoint, which costs no more than the result's performance.
  eligible-Route :
      (tr : Trajectory) (run_id : Option String) (m : Option EfficiencyMetrics)
      (r : BenchmarkResult)
      → evaluate_trajectory (macro_environment rt t) tr run_id m ≡ ok r
      → performance_eligible_for r (macro_task_spec t) ≡ true
      → (ticks : ℕ) × (r.performance_value ≡ some (float ticks))
        × (k : ℕ) × (names : List String) × Route t.distance k names
        × (k ≤ ticks)
  unfolding macro_task_spec macro_objective
  eligible-Route tr run_id m r h eligible =
      let a : Achieved (macro_environment rt t) (IsSession rt t) r =
        evaluate_trajectory-Achieved (macro_environment rt t) (IsSession rt t) (IsSession-kept rt t)
          tr run_id m r h eligible in
      let (o, single, passed) = verified a.final r.constraint_outcomes a.verifies in
      let (_, passes) = a.satisfied.declared o (subst (In o) (sym single) (inl refl)) in
      let lawful : ¬ In "warp" a.final.actions =
        not-In_of_contains "warp" a.final.actions (ground arith) in
      let arrives : a.final.position ≡ t.distance = (eqb_iff _ _).0 (sym a.holds.complete) in
      let (k, names, path, le) = a.holds.walked lawful in
      (a.final.elapsed_ticks, a.performs, k, names, subst (λ q. Route q k names) arrives path, le)

  -- The performance of an eligible result is at least `optimum_value`, however the trajectory was made.
  pub eligible-ge-optimum_value :
      (tr : Trajectory) (run_id : Option String) (m : Option EfficiencyMetrics)
      (r : BenchmarkResult)
      → evaluate_trajectory (macro_environment rt t) tr run_id m ≡ ok r
      → performance_eligible_for r (macro_task_spec t) ≡ true
      → (ticks best : ℕ) × (r.performance_value ≡ some (float ticks))
        × (optimum_value t.distance ≡ ok (float best))
        × (best ≤ ticks)
  eligible-ge-optimum_value tr run_id m r h eligible =
      let (ticks, performs, k, names, path, le) = eligible-Route tr run_id m r h eligible in
      let (best, _, value, _, _, least) = optimum_value-IsLeast t.distance in
      (ticks, best, performs, value, omega (arith, least k names path))

  -- A reference on a MacroTrack that is validated claims no less than `optimum_value`.
  pub macro_reference-ge-optimum_value :
      (ref : ReferenceEntry) (tr : Trajectory) (r : BenchmarkResult)
      → validate_reference (macro_environment rt t) ref tr ≡ ok r
      → (ticks best : ℕ) × (ref.performance_value ≡ float ticks)
        × (optimum_value t.distance ≡ ok (float best))
        × (best ≤ ticks)
  macro_reference-ge-optimum_value ref tr r h =
      let c : Confirms (macro_environment rt t) ref tr r =
        validate_reference-Confirms (macro_environment rt t) ref tr r h in
      let (ticks, best, performs, value, le) =
        eligible-ge-optimum_value tr none none r c.evaluates c.eligible in
      (
        ticks,
        best,
        (let e : some ref.performance_value ≡ some (float ticks) = sym c.claimed ∙ performs in
            cc e),
        value,
        le,
      )
