-- ===== src/Evaluation/Traces.antt =====
-- What an evaluation that did not raise has replayed.
use levelup_bench.Prelude.{
  ℕ, ◌≡◌, ◌⊎◌, ap, map, ◌&&◌, IsUnique, subst, refl, String, Bool, true, false, not, List, [], ◌∷◌,
  Option, none, some, string_eq, ◌==◌, ==→≡, arith, inl, inr, Result, ok, raise, raise_if-eq-ok,
  ok-injective, >>=-eq-ok, if◌then◌else◌, Bool-cases,
}
use levelup_bench.Core.Faults.{Fault}
use levelup_bench.Core.Ladder.Order.{all_unique_iff, not-false}
use levelup_bench.Core.Task.{ConstraintSpec, all_unique}
use levelup_bench.Core.Outcome.{
  ConstraintOutcome, check_result, outcome_ids, EfficiencyMetrics, BenchmarkResult,
  performance_eligible_for,
}
use levelup_bench.Core.Numbers.{Float}
use levelup_bench.Core.Reference.{ReferenceEntry}
use levelup_bench.Prelude.Int.{eqb_ℤ_iff}
use levelup_bench.Core.Outcome.Validity.{check_result-same}
use levelup_bench.Core.Trajectory.{Trajectory, TrajectoryStep}
use levelup_bench.Environment.{Environment, StepOutcome}
use levelup_bench.Evaluation.{
  mismatches, seed_or, report, rejected, replay_steps, verify_all, evaluate_trajectory,
  check_trajectory_id, differs, validate_reference,
}

-- The hash that was recorded, if any, is the observed one.
abbrev pub Agrees : Option String → String → Type 0
Agrees none observed = Unit
Agrees (some expected) observed = expected ≡ observed

pub mismatches-Agrees :
    (h : Option String) (observed : String) → mismatches h observed ≡ false → Agrees h observed
mismatches-Agrees none observed h = tt
mismatches-Agrees (some expected) observed h = ==→≡ (ground arith)

pub Agrees-mismatches :
    (h : Option String) (observed : String) → Agrees h observed → mismatches h observed ≡ false
Agrees-mismatches none observed h = refl
Agrees-mismatches (some expected) observed h =
    let same : (expected == observed) ≡ true = (string_eq.beq_iff _ _).1 h in ground arith

-- Without steps, or where the task is not complete, nothing is complete at the reset.
pub going_at_reset :
    (empty completed : Bool)
    → (empty ≡ true) ⊎ (completed ≡ false)
    → (not empty && completed) ≡ false
going_at_reset empty completed h = ground arith

module _ (env : Environment) where
  -- The steps lead from one state to another: each is taken while the task is not complete, the
  -- environment accepts it, and the recorded hash, if there is one, is the observed one.
  abbrev pub Trace : List TrajectoryStep → env.State → Bool → env.State → Bool → Type 0
  Trace [] s c s' c' = (s ≡ s') × (c ≡ c')
  Trace (x ∷ xs) s c s' c' =
      (c ≡ false)
      × (next : env.State) × (outcome : StepOutcome) × (env.step s x.action ≡ ok (next, outcome))
      × Agrees x.state_hash outcome.state_hash
      × Trace xs next outcome.completed s' c'

  rejected-eq-ok : {A : Type 0} (r : Result Fault A) {a : A} → rejected r ≡ ok a → r ≡ ok a
  rejected-eq-ok (ok b) h = h
  rejected-eq-ok (raise f) h = cc

  pub replay_steps-Trace :
      (xs : List TrajectoryStep) (s : env.State) (c : Bool) (s' : env.State) (c' : Bool)
      → replay_steps env xs s c ≡ ok (s', c')
      → Trace xs s c s' c'
  unfolding replay_steps
  replay_steps-Trace [] s c s' c' h =
      let e : (s, c) ≡ (s', c') = ok-injective h in
      (ap (λ (p : env.State × Bool). p.0) e, ap (λ (p : env.State × Bool). p.1) e)
  replay_steps-Trace (x ∷ xs) s c s' c' h =
      let (going, h1) = raise_if-eq-ok c _ _ h in
      let (m, accepted, h2) = >>=-eq-ok (rejected (env.step s x.action)) _ h1 in
      let (agrees, h3) = raise_if-eq-ok (mismatches x.state_hash m.1.state_hash) _ _ h2 in
      (
        going,
        m.0,
        m.1,
        rejected-eq-ok _ accepted,
        mismatches-Agrees x.state_hash m.1.state_hash agrees,
        replay_steps-Trace xs m.0 m.1.completed s' c' h3,
      )

  pub Trace-replay_steps :
      (xs : List TrajectoryStep) (s : env.State) (c : Bool) (s' : env.State) (c' : Bool)
      → Trace xs s c s' c'
      → replay_steps env xs s c ≡ ok (s', c')
  unfolding replay_steps
  Trace-replay_steps [] s c s' c' (p, q) = rw p (rw q)
  Trace-replay_steps (x ∷ xs) s c s' c' (going, next, outcome, accepted, agrees, rest) = rw going (
      rw accepted (
        rw (Agrees-mismatches x.state_hash outcome.state_hash agrees)
          (Trace-replay_steps xs next outcome.completed s' c' rest)))

  -- The constraints are judged one by one, in order, by the environment in a state.
  abbrev pub Judged : env.State → List ConstraintSpec → List ConstraintOutcome → Type 0
  Judged s [] [] = Unit
  Judged s [] (o ∷ os) = ⊥
  Judged s (c ∷ cs) [] = ⊥
  Judged s (c ∷ cs) (o ∷ os) = (env.verify_constraint s c ≡ ok o) × Judged s cs os

  verify_all-Judged :
      (s : env.State) (cs : List ConstraintSpec) (os : List ConstraintOutcome)
      → verify_all env s cs ≡ ok os
      → Judged s cs os
  unfolding verify_all
  verify_all-Judged s [] os h = subst (Judged s []) (ok-injective h) tt
  verify_all-Judged s (c ∷ cs) os h =
      let (o, first, h1) = >>=-eq-ok (env.verify_constraint s c) _ h in
      let (rest, later, h2) = >>=-eq-ok (verify_all env s cs) _ h1 in
      subst (Judged s (c ∷ cs)) (ok-injective h2) (first, verify_all-Judged s cs rest later)

  pub Judged-verify_all :
      (s : env.State) (cs : List ConstraintSpec) (os : List ConstraintOutcome)
      → Judged s cs os
      → verify_all env s cs ≡ ok os
  unfolding verify_all
  Judged-verify_all s [] [] h = refl
  Judged-verify_all s [] (o ∷ os) h = absurd h
  Judged-verify_all s (c ∷ cs) [] h = absurd h
  Judged-verify_all s (c ∷ cs) (o ∷ os) (first, rest) =
      rw (first, Judged-verify_all s cs os rest) refl

  -- What a result says of a trajectory, when the evaluation has succeeded.
  pub record Replayed (t : Trajectory) (r : BenchmarkResult) : Type 0 where
    pub start : env.State
    pub initial : StepOutcome
    pub final : env.State
    pub own_task : t.task_id ≡ env.task_spec.task_id
    pub seed : Option ℕ
    pub own_seed : (n : ℕ) → t.environment_seed ≡ some n → seed ≡ some n
    pub task_seed : t.environment_seed ≡ none → seed ≡ env.task_spec.environment.seed
    pub resets : env.reset seed ≡ ok (start, initial)
    pub replays : Trace t.steps start initial.completed final r.completed
    pub agrees : Agrees t.final_state_hash (env.state_hash final)
    pub judged : Judged final env.task_spec.constraints r.constraint_outcomes
    pub differing :
        IsUnique (map (λ (o : ConstraintOutcome). o.constraint_id) r.constraint_outcomes)
    pub performs :
        r.performance_value ≡ (if r.completed then some (env.objective_value final) else none)
    pub hashes : r.final_state_hash ≡ some (env.state_hash final)
    pub names_task : r.task_id ≡ env.task_spec.task_id
    pub names_trajectory : r.trajectory_id ≡ t.trajectory_id

  -- An evaluation that succeeds has replayed the whole trajectory, none of it after completion
  -- and every recorded hash confirmed, on the task that it names, and reports the replay's own completion, outcomes, value and hash.
  pub evaluate_trajectory-Replayed :
      (t : Trajectory) (run_id : Option String) (m : Option EfficiencyMetrics) (r : BenchmarkResult)
      → evaluate_trajectory env t run_id m ≡ ok r
      → Replayed t r
  unfolding evaluate_trajectory check_result
  evaluate_trajectory-Replayed t run_id m r h =
      let (same, h1) = raise_if-eq-ok (not (t.task_id == env.task_spec.task_id)) _ _ h in
      let (begun, resets, h2) =
        >>=-eq-ok (env.reset (seed_or t.environment_seed env.task_spec.environment.seed)) _ h1 in
      let (_, h3) = raise_if-eq-ok _ _ _ h2 in
      let (ended, replays, h4) =
        >>=-eq-ok (replay_steps env t.steps begun.0 begun.1.completed) _ h3 in
      let (agrees, h5) = raise_if-eq-ok _ _ _ h4 in
      let (outcomes, verifies, h6) =
        >>=-eq-ok (verify_all env ended.0 env.task_spec.constraints) _ h5 in
      subst (Replayed t) (check_result-same _ _ h6) (record {
        start = begun.0;
        initial = begun.1;
        final = ended.0;
        own_task = ==→≡ (ground arith);
        seed = seed_or t.environment_seed env.task_spec.environment.seed;
        own_seed = λ n e. rw e refl;
        task_seed = λ e. rw e refl;
        resets = resets;
        replays = replay_steps-Trace t.steps begun.0 begun.1.completed ended.0 ended.1 replays;
        agrees = mismatches-Agrees t.final_state_hash (env.state_hash ended.0) agrees;
        judged = verify_all-Judged ended.0 env.task_spec.constraints outcomes verifies;
        differing = (all_unique_iff _).0 (
            not-false _
              (raise_if-eq-ok (not (all_unique (outcome_ids outcomes))) _ _ (
                let k : check_result (report env t run_id m ended.0 ended.1 outcomes) ≡ ok r = h6 in
                k)).0);
        performs = refl;
        hashes = refl;
        names_task = refl;
        names_trajectory = refl;
      })

  -- What is known of a reference that has been validated against a trajectory.
  pub record Confirms (ref : ReferenceEntry) (t : Trajectory) (r : BenchmarkResult) : Type 0 where
    pub named : ref.trajectory_id ≡ some t.trajectory_id
    pub evaluates : evaluate_trajectory env t none none ≡ ok r
    pub eligible : performance_eligible_for r env.task_spec ≡ true
    pub claimed : r.performance_value ≡ some ref.performance_value

  same_id :
      (i : Option String) (t : Trajectory)
      → check_trajectory_id env i t ≡ ok tt
      → i ≡ some t.trajectory_id
  same_id none t h = cc
  same_id (some i) t h = elim (Bool-cases (i == t.trajectory_id)) [
    | inl same ↦ ap some (==→≡ same)
    | inr other ↦ absurd (cc (let k : raise _ ≡ ok tt = rw other at h in k))
  ]

  same_value : (v : Option Float) (x : Float) → differs env v x ≡ false → v ≡ some x
  same_value none x h = cc
  same_value (some y) x h = ground (arith, eqb_ℤ_iff y.multiple x.multiple)

  -- A reference that is validated names its trajectory, whose evaluation is eligible and has the
  -- claimed value.
  pub validate_reference-Confirms :
      (ref : ReferenceEntry) (t : Trajectory) (r : BenchmarkResult)
      → validate_reference env ref t ≡ ok r
      → Confirms ref t r
  unfolding validate_reference
  validate_reference-Confirms ref t r h =
      let (u, ids, h1) = >>=-eq-ok (check_trajectory_id env ref.trajectory_id t) _ h in
      let (r', evaluates, h2) = >>=-eq-ok (evaluate_trajectory env t none none) _ h1 in
      let (eligible, h3) =
        raise_if-eq-ok (not (performance_eligible_for r' env.task_spec)) _ _ h2 in
      let (value, h4) =
        raise_if-eq-ok (differs env r'.performance_value ref.performance_value) _ _ h3 in
      subst (Confirms ref t) (ok-injective h4) (record {
        named = same_id ref.trajectory_id t ids;
        evaluates = evaluates;
        eligible = ground arith;
        claimed = same_value r'.performance_value ref.performance_value value;
      })
