-- ===== src/Course/References.antt =====
-- Trajectories on an adaptive track, judged by levelup/evaluation.py.
use levelup_bench.Prelude.{
  ℕ, length, ◌≤◌, ◌≡◌, ◌∙◌, sym, ap, subst, refl, String, Bool, true, false, not, List, [], ◌∷◌,
  ◌++◌, none, some, map, contains, not-In_of_contains, string_eq, arith, In, inl, inr, ok, raise,
  >>=-eq-ok, raise_if-eq-ok, ok-injective, if◌then◌else◌, Bool-cases, eqb, eqb_iff,
}
use mathlib.Core.List.{append-nil, append_assoc}
use levelup_bench.Core.Numbers.{float}
use levelup_bench.Core.Outcome.{ConstraintOutcome, BenchmarkResult, performance_eligible_for}
use levelup_bench.Core.Outcome.Validity.{eligible_parts}
use levelup_bench.Core.Reference.{ReferenceEntry}
use levelup_bench.Core.Trajectory.{ActionRecord, Trajectory, TrajectoryStep, plain_action}
use levelup_bench.Environment.{StepOutcome}
use levelup_bench.Evaluation.{validate_reference, evaluate_trajectory, verify_all}
use levelup_bench.Evaluation.Traces.{
  Trace, Judged-verify_all, Replayed, evaluate_trajectory-Replayed, Confirms,
  validate_reference-Confirms,
}
use levelup_bench.Runtime.{Runtime}
use levelup_bench.Track.{never_use_override, verify_never_used, has_arguments}
use levelup_bench.Course.{
  Course, Session, fresh_session, step, outcome, reset, environment, objective_value,
}
use levelup_bench.Course.Oracle.{optimal_path}
use levelup_bench.Course.Oracle.Optimum.{
  IsBounded, Completes, IsLeast, enough_fuel, optimal_path-IsLeast,
}
use levelup_bench.Course.Runs.{run, step-Steps}
use levelup_bench.Course.Valid.{IsFair}

abbrev pub names : List TrajectoryStep → List String
names = map (λ s. s.action.name)

module _ (rt : Runtime) (c : Course) where
  -- An accepted action has no arguments.
  step-plain :
      (g : Session c.State) (a : ActionRecord) {r : Session c.State × StepOutcome}
      → step rt c g a ≡ ok r
      → step rt c g (plain_action a.name) ≡ ok r
  unfolding step
  step-plain g a h = elim (Bool-cases (has_arguments a.arguments)) [
    | inl given ↦ absurd (cc (let k : raise _ ≡ ok _ = rw given at h in k))
    | inr plain ↦ rw plain at h
  ]

  run-taken :
      (g : Session c.State) (path : List String) (g' : Session c.State)
      → run rt c g path ≡ ok g'
      → g'.actions_taken ≡ g.actions_taken ++ path
  unfolding run
  run-taken g [] g' h =
      ap (λ (s : Session c.State). s.actions_taken) (sym (ok-injective h))
      ∙ sym (append-nil g.actions_taken)
  run-taken g (name ∷ rest) g' h =
      let (m, stepped, h') = >>=-eq-ok (step rt c g (plain_action name)) _ h in
      let (s, _, _) = step-Steps rt c g (plain_action name) m.0 m.1 stepped in
      run-taken m.0 rest g' h'
      ∙ ap (λ (l : List String). l ++ rest) s.taken
      ∙ append_assoc g.actions_taken (name ∷ []) rest

  -- A replay is a run, and completion is read off the state.
  Trace-run :
      (xs : List TrajectoryStep) (g : Session c.State) (b : Bool) (g' : Session c.State) (b' : Bool)
      → Trace (environment rt c) xs g b g' b'
      → b ≡ eqb (c.progress g.state) c.target
      → (run rt c g (names xs) ≡ ok g') × (b' ≡ eqb (c.progress g'.state) c.target)
  unfolding run outcome
  Trace-run [] g b g' b' (p, q) h =
      (ap ok p, sym q ∙ h ∙ ap (λ (s : Session c.State). eqb (c.progress s.state) c.target) p)
  Trace-run (x ∷ xs) g b g' b' (going, next, o, stepped, agrees, rest) h =
      let (_, made, _) = step-Steps rt c g x.action next o stepped in
      let (runs, ended) =
        Trace-run xs next o.completed g' b' rest (ap (λ (s : StepOutcome). s.completed) made) in
      (rw (step-plain g x.action stepped) runs, ended)

  -- The one constraint passes exactly if the forbidden alias was not taken.
  verified :
      (g : Session c.State) (outcomes : List ConstraintOutcome)
      → verify_all (environment rt c) g (c.task_spec).constraints ≡ ok outcomes
      → (o : ConstraintOutcome) × (outcomes ≡ o ∷ [])
        × (o.passed ≡ not (contains c.forbidden_alias g.actions_taken))
  unfolding verify_all verify_never_used
  verified g outcomes h =
      let k : verify_all (environment rt c) g (never_use_override c.forbidden_alias ∷ [])
          ≡ ok outcomes =
        rw (c.declares) at h in
      (_, sym (ok-injective k), refl)

  -- On a course with fair actions, a result that is evaluated and eligible is that of a run to the target
  -- without the forbidden action, and its performance is the number of the run's ticks.
  pub eligible-Completes :
      IsFair c.actions c.forbidden_alias
      → (tr : Trajectory) (r : BenchmarkResult)
      → evaluate_trajectory (environment rt c) tr none none ≡ ok r
      → performance_eligible_for r c.task_spec ≡ true
      → (ticks : ℕ) × Completes rt c (names tr.steps) ticks
        × (r.performance_value ≡ some (float ticks))
  unfolding reset objective_value outcome
  eligible-Completes v tr r h eligible =
      let p : Replayed (environment rt c) tr r =
        evaluate_trajectory-Replayed (environment rt c) tr none none r h in
      let (_, begun) = raise_if-eq-ok _ _ _ p.resets in
      let start : ◌≡◌ {A = Session c.State × StepOutcome}
          (fresh_session c, outcome rt c (fresh_session c)) (p.start, p.initial) =
        ok-injective begun in
      let at_start : fresh_session c ≡ p.start =
        ap (λ (q : Session c.State × StepOutcome). q.0) start in
      let (runs, ended) =
        Trace-run tr.steps p.start p.initial.completed p.final r.completed p.replays (
          subst
            (λ (q : Session c.State × StepOutcome).
              q.1.completed ≡ eqb (c.progress q.0.state) c.target)
            start refl) in
      let runs' : run rt c (fresh_session c) (names tr.steps) ≡ ok p.final = rw at_start runs in
      let (completed, satisfied) = eligible_parts r c.task_spec eligible in
      let (o, single, passed) = verified p.final r.constraint_outcomes (
        Judged-verify_all (environment rt c) p.final c.task_spec.constraints r.constraint_outcomes
          p.judged) in
      let (_, passes) = satisfied.declared o (subst (In o) (sym single) (inl refl)) in
      let taken : p.final.actions_taken ≡ names tr.steps =
        run-taken (fresh_session c) (names tr.steps) p.final runs' in
      (
        p.final.elapsed_ticks,
        record {
          final = p.final;
          runs = runs';
          arrives = (eqb_iff _ _).0 (sym ended ∙ completed);
          elapsed = refl;
          lawful =
              subst (λ (l : List String). ¬ In c.forbidden_alias l) taken
                (not-In_of_contains c.forbidden_alias p.final.actions_taken (ground arith));
        },
        p.performs
            ∙ ap (λ (b : Bool). if b then some (float p.final.elapsed_ticks) else none) completed,
      )

  -- No reference that is validated beats the optimum that `optimal_path` returns: its claimed
  -- performance is the tick count of a lawful run, which is at least the optimum.
  pub validate_reference-ge-optimum :
      IsFair c.actions c.forbidden_alias
      → c.strict ≡ true
      → (b : IsBounded c) (fuel : ℕ) (best : ℕ) (path : List String)
      → enough_fuel (length b.states) ≤ fuel
      → optimal_path fuel c ≡ some (ok (best, path))
      → (ref : ReferenceEntry) (tr : Trajectory) (r : BenchmarkResult)
      → validate_reference (environment rt c) ref tr ≡ ok r
      → (ticks : ℕ) × Completes rt c (names tr.steps) ticks
        × (ref.performance_value ≡ float ticks)
        × (best ≤ ticks)
  validate_reference-ge-optimum v strict b fuel best path h found ref tr r ok_ref =
      let k : Confirms (environment rt c) ref tr r =
        validate_reference-Confirms (environment rt c) ref tr r ok_ref in
      let (ticks, completes, performs) = eligible-Completes v tr r k.evaluates k.eligible in
      (
        ticks,
        completes,
        (let e : some ref.performance_value ≡ some (float ticks) = sym k.claimed ∙ performs in
            cc e),
        subst (IsLeast rt c) found (optimal_path-IsLeast rt c v strict b fuel h).1 (names tr.steps)
            ticks completes,
      )

  -- On a course with fair actions, a trajectory that takes the forbidden action is never eligible,
  -- however fast it is.
  pub forbidden_not_eligible :
      IsFair c.actions c.forbidden_alias
      → (tr : Trajectory) (r : BenchmarkResult)
      → evaluate_trajectory (environment rt c) tr none none ≡ ok r
      → In c.forbidden_alias (names tr.steps)
      → performance_eligible_for r c.task_spec ≡ false
  forbidden_not_eligible v tr r h m = elim (Bool-cases (performance_eligible_for r c.task_spec)) [
    | inl eligible ↦
        (let (_, done, _) = eligible-Completes v tr r h eligible in absurd (done.lawful m))
    | inr refused ↦ refused
  ]
