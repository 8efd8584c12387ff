-- ===== src/Evaluation/Stops.antt =====
-- Where and why a replay stops.
use levelup_bench.Prelude.{
  ◌≡◌, ◌⊎◌, ◌↔◌, ◌∙◌, sym, ap, refl, Bool, true, false, List, [], ◌∷◌, ◌++◌, string_eq, inl, inr,
  Result, ok, raise, raise_if, ◌>>=◌, ◌>>◌, Bool-cases, Result-cases,
}
use levelup_bench.Core.Faults.{
  Fault, is_value_error, value_error, replay_error, reference_error, key_error, runtime_error,
  type_error, assertion_error, zero_division, index_error, selection_error, after_completion,
  rejected_action, state_hash_mismatch,
}
use levelup_bench.Core.Trajectory.{TrajectoryStep}
use levelup_bench.Environment.{Environment, StepOutcome}
use levelup_bench.Evaluation.{mismatches, rejected, replay_steps}
use levelup_bench.Evaluation.Traces.{
  Trace, Agrees, mismatches-Agrees, Agrees-mismatches, replay_steps-Trace, Trace-replay_steps,
}

-- The faults that are a TypeError or a ValueError in Python.
abbrev pub IsCaught : Fault → Type 0
IsCaught (value_error v) = Unit
IsCaught (replay_error r) = Unit
IsCaught (reference_error r) = Unit
IsCaught key_error = ⊥
IsCaught runtime_error = ⊥
IsCaught type_error = Unit
IsCaught assertion_error = ⊥
IsCaught zero_division = ⊥
IsCaught index_error = ⊥
IsCaught selection_error = Unit

IsCaught-or_not :
    (f : Fault)
    → (IsCaught f × (is_value_error f ≡ true)) ⊎ ((¬ IsCaught f) × (is_value_error f ≡ false))
IsCaught-or_not (value_error v) = inl (tt, refl)
IsCaught-or_not (replay_error r) = inl (tt, refl)
IsCaught-or_not (reference_error r) = inl (tt, refl)
IsCaught-or_not key_error = inr (λ h. h, refl)
IsCaught-or_not runtime_error = inr (λ h. h, refl)
IsCaught-or_not type_error = inl (tt, refl)
IsCaught-or_not assertion_error = inr (λ h. h, refl)
IsCaught-or_not zero_division = inr (λ h. h, refl)
IsCaught-or_not index_error = inr (λ h. h, refl)
IsCaught-or_not selection_error = inl (tt, refl)

raise-injective : {A : Type 0} {e f : Fault} → ◌≡◌ {A = Result Fault A} (raise e) (raise f) → e ≡ f
raise-injective h = cc h

module _ (env : Environment) where
  -- What a step that the environment refuses makes of the fault: a ReplayError of a TypeError or a ValueError, and any other fault stays.
  abbrev pub Refuses : Fault → Fault → Type 0
  Refuses g f = (IsCaught g × (f ≡ replay_error rejected_action)) ⊎ ((¬ IsCaught g) × (f ≡ g))

  -- Why a step stops the replay, in a state where the task is complete or not: it comes after completion, the environment refuses it, or the recorded hash is not the observed one.
  abbrev pub Stops : TrajectoryStep → env.State → Bool → Fault → Type 0
  Stops x s c f =
      ((c ≡ true) × (f ≡ replay_error after_completion))
      ⊎ (((c ≡ false) × (g : Fault) × (env.step s x.action ≡ raise g) × Refuses g f)
          ⊎ ((c ≡ false)
              × (next : env.State) × (o : StepOutcome) × (env.step s x.action ≡ ok (next, o))
              × (¬ Agrees x.state_hash o.state_hash)
              × (f ≡ replay_error state_hash_mismatch)))

  -- The steps before one lead to a state in which that one stops the replay.
  pub record FailsAt (xs : List TrajectoryStep) (s : env.State) (c : Bool) (f : Fault)
      : Type 0 where
    pub before : List TrajectoryStep
    pub at : TrajectoryStep
    pub after : List TrajectoryStep
    pub state : env.State
    pub completed : Bool
    pub splits : xs ≡ before ++ at ∷ after
    pub reaches : Trace env before s c state completed
    pub stops : Stops at state completed f

  here :
      (x : TrajectoryStep) (xs : List TrajectoryStep) (s : env.State) (c : Bool) (f : Fault)
      → Stops x s c f
      → FailsAt (x ∷ xs) s c f
  here x xs s c f w = record {
    before = [];
    at = x;
    after = xs;
    state = s;
    completed = c;
    splits = refl;
    reaches = (refl, refl);
    stops = w;
  }

  later :
      (x : TrajectoryStep) (xs : List TrajectoryStep) (s next : env.State) (o : StepOutcome)
      (f : Fault)
      → env.step s x.action ≡ ok (next, o)
      → Agrees x.state_hash o.state_hash
      → FailsAt xs next o.completed f
      → FailsAt (x ∷ xs) s false f
  later x xs s next o f stepped agrees w = record {
    before = x ∷ w.before;
    at = w.at;
    after = w.after;
    state = w.state;
    completed = w.completed;
    splits = ap (λ l. x ∷ l) w.splits;
    reaches = (refl, next, o, stepped, agrees, w.reaches);
    stops = w.stops;
  }

  rejected-Refuses :
      {A : Type 0} (g f : Fault)
      → ◌≡◌ {A = Result Fault A} (rejected (raise g)) (raise f)
      → Refuses g f
  rejected-Refuses g f h = elim (IsCaught-or_not g) [
    | inl (caught, yes_caught) ↦ inl (caught, sym (raise-injective (rw yes_caught at h)))
    | inr (other, not_caught) ↦ inr (other, sym (raise-injective (rw not_caught at h)))
  ]

  Refuses-rejected :
      {A : Type 0} (g f : Fault)
      → Refuses g f
      → ◌≡◌ {A = Result Fault A} (rejected (raise g)) (raise f)
  Refuses-rejected g f w = elim (IsCaught-or_not g) [
    | inl (caught, yes_caught) ↦ elim w [
      | inl (_, e) ↦ rw (yes_caught, e) refl
      | inr (other, _) ↦ absurd (other caught)
    ]
    | inr (other, not_caught) ↦ elim w [
      | inl (caught, _) ↦ absurd (other caught)
      | inr (_, e) ↦ rw (not_caught, e) refl
    ]
  ]

  replay_steps-FailsAt :
      (xs : List TrajectoryStep) (s : env.State) (c : Bool) (f : Fault)
      → replay_steps env xs s c ≡ raise f
      → FailsAt xs s c f
  unfolding replay_steps
  replay_steps-FailsAt [] s c f h = absurd (cc h)
  replay_steps-FailsAt (x ∷ xs) s true f h =
      here x xs s true f (inl (refl, sym (raise-injective h)))
  replay_steps-FailsAt (x ∷ xs) s false f h = elim (Result-cases (env.step s x.action)) [
    | inl (g, refused) ↦
        let k : (rejected (raise g) >>= λ (m : env.State × StepOutcome).
        raise_if (mismatches x.state_hash m.1.state_hash) (replay_error state_hash_mismatch)
        >> replay_steps env xs m.0 m.1.completed)
            ≡ raise f =
          rw refused at h in
        here x xs s false f
          (inr (inl (refl, g, refused, rejected-Refuses {A = env.State × Bool} g f k)))
    | inr (m, accepted) ↦
        let k : (raise_if (mismatches x.state_hash m.1.state_hash)
                (replay_error state_hash_mismatch)
              >> replay_steps env xs m.0 m.1.completed)
            ≡ raise f =
          rw accepted at h in
        elim (Bool-cases (mismatches x.state_hash m.1.state_hash)) [
          | inl differs ↦
              let l : ◌≡◌ {A = Result Fault (env.State × Bool)}
                  (raise (replay_error state_hash_mismatch)) (raise f) =
                rw differs at k in
              here x xs s false f (
                inr (
                  inr (
                    refl,
                    m.0,
                    m.1,
                    accepted,
                    (λ w.
                        let e : true ≡ false =
                          sym differs ∙ Agrees-mismatches x.state_hash m.1.state_hash w in
                        cc e),
                    sym (raise-injective l),
                  )))
          | inr same ↦
              let l : replay_steps env xs m.0 m.1.completed ≡ raise f = rw same at k in
              later x xs s m.0 m.1 f accepted (mismatches-Agrees x.state_hash m.1.state_hash same)
                (replay_steps-FailsAt xs m.0 m.1.completed f l)
        ]
  ]

  Stops-replay_steps :
      (x : TrajectoryStep) (xs : List TrajectoryStep) (s : env.State) (c : Bool) (f : Fault)
      → Stops x s c f
      → replay_steps env (x ∷ xs) s c ≡ raise f
  unfolding replay_steps
  Stops-replay_steps x xs s c f (inl (done, e)) = rw (done, e) refl
  Stops-replay_steps x xs s c f (inr (inl (going, g, refused, w))) =
      let k : rejected (env.step s x.action) ≡ raise f =
        rw refused (Refuses-rejected {A = env.State × StepOutcome} g f w) in
      rw (going, replay_steps, k) refl
  Stops-replay_steps x xs s c f (inr (inr (going, next, o, accepted, apart, e))) =
      elim (Bool-cases (mismatches x.state_hash o.state_hash)) [
        | inl differs ↦ rw (going, replay_steps, accepted, differs, e) refl
        | inr same ↦ absurd (apart (mismatches-Agrees x.state_hash o.state_hash same))
      ]

  replay_steps-append :
      (before after : List TrajectoryStep) (s : env.State) (c : Bool) (s' : env.State) (c' : Bool)
      → Trace env before s c s' c'
      → replay_steps env (before ++ after) s c ≡ replay_steps env after s' c'
  unfolding replay_steps
  replay_steps-append [] after s c s' c' (p, q) = rw (p, q) refl
  replay_steps-append (x ∷ xs) after s c s' c' (going, next, o, accepted, agrees, rest) = rw going (
      rw accepted (
        rw (Agrees-mismatches x.state_hash o.state_hash agrees)
          (replay_steps-append xs after next o.completed s' c' rest)))

  FailsAt-replay_steps :
      (xs : List TrajectoryStep) (s : env.State) (c : Bool) (f : Fault)
      → FailsAt xs s c f
      → replay_steps env xs s c ≡ raise f
  FailsAt-replay_steps xs s c f w =
      ap (λ l. replay_steps env l s c) w.splits
      ∙ replay_steps-append w.before (w.at ∷ w.after) s c w.state w.completed w.reaches
      ∙ Stops-replay_steps w.at w.after w.state w.completed f w.stops

  -- Replaying steps returns a state and completion exactly if the steps lead there: each is taken while the task is not complete, the environment accepts it, and the recorded hash, if there is one, is the observed one. It raises a fault exactly if the steps before one lead to a state in which that one comes after completion, is refused by the environment, or records a hash that is not the observed one, and the fault is the ReplayError of this, or what the environment raised where that is neither a TypeError nor a ValueError.
  pub replay_steps_branches :
      (xs : List TrajectoryStep) (s : env.State) (c : Bool) (s' : env.State) (c' : Bool) (f : Fault)
      → ((replay_steps env xs s c ≡ ok (s', c')) ↔ Trace env xs s c s' c')
        × ((replay_steps env xs s c ≡ raise f) ↔ FailsAt xs s c f)
  replay_steps_branches xs s c s' c' f = (
    (replay_steps-Trace env xs s c s' c', Trace-replay_steps env xs s c s' c'),
    (replay_steps-FailsAt xs s c f, FailsAt-replay_steps xs s c f),
  )
