-- ===== src/Microgames/Switchboard/Bounds.antt =====
-- No lawful way lights the lamps with fewer than two presses.
use levelup_bench.Prelude.{
  ℕ, suc, ◌+◌, ◌≤◌, ◌≡◌, ◌⊎◌, refl, sym, subst, Bool, true, not, List, [], ◌∷◌, Option, none, some,
  contains, not-In_of_contains, In, inl, inr, arith, eqb, eqb_iff, length, length-append, ok,
  ok-injective, raise_if-eq-ok, lookup-eq-ok, String, string_eq, ◌==◌, ==→≡, Bool-cases,
  In-append_left, In-append_right,
}
use Prim.Native.Nat.{bit_xor}
use levelup_bench.Core.Numbers.{float}
use levelup_bench.Core.Outcome.{
  BenchmarkResult, ConstraintOutcome, EfficiencyMetrics, performance_eligible_for,
}
use levelup_bench.Core.Trajectory.{Trajectory}
use levelup_bench.Environment.{StepOutcome}
use levelup_bench.Evaluation.{evaluate_trajectory, verify_all}
use levelup_bench.Evaluation.Invariants.{Keeps, Achieved, evaluate_trajectory-Achieved}
use levelup_bench.Runtime.{Runtime}
use levelup_bench.Track.{has_arguments, verify_never_used}
use levelup_bench.Microgames.Switchboard.{
  find_effect, SwitchSession, switch_start, never_press_red, switch_task_spec, switch_outcome,
  switch_reset, switch_advance, switch_step, switch_environment,
}

-- The presses that are left at least, from the masks that the lawful switches reach.
data Reached : ℕ → ℕ → Type 0 where
  dark : Reached 0 2
  blue_lit : Reached 3 1
  green_lit : Reached 12 1
  all_lit : Reached 15 0

-- A lawful effect, from a mask that was reached, reaches one that is nearer by one at most.
press_blue :
    (mask left : ℕ) → Reached mask left → (k : ℕ) × Reached (bit_xor mask 3) k × (left ≤ suc k)
press_blue _ _ dark = (1, blue_lit, omega arith)
press_blue _ _ blue_lit = (2, dark, omega arith)
press_blue _ _ green_lit = (0, all_lit, omega arith)
press_blue _ _ all_lit = (1, green_lit, omega arith)

press_green :
    (mask left : ℕ) → Reached mask left → (k : ℕ) × Reached (bit_xor mask 12) k × (left ≤ suc k)
press_green _ _ dark = (1, green_lit, omega arith)
press_green _ _ blue_lit = (0, all_lit, omega arith)
press_green _ _ green_lit = (2, dark, omega arith)
press_green _ _ all_lit = (1, blue_lit, omega arith)

-- The effects, by name.
effects :
    (name : String) (effect : ℕ)
    → find_effect name ≡ some effect
    → (effect ≡ 3) ⊎ ((effect ≡ 12) ⊎ (name ≡ "red"))
unfolding find_effect
effects name effect h = elim (Bool-cases (name == "blue")) [
  | inl blue ↦ inl (let k : some 3 ≡ some effect = rw blue at h in sym (cc k))
  | inr not_blue ↦ elim (Bool-cases (name == "green")) [
    | inl green ↦
        inr (inl (let k : some 12 ≡ some effect = rw (not_blue, green) at h in sym (cc k)))
    | inr not_green ↦ elim (Bool-cases (name == "red")) [
      | inl red ↦ inr (inr (==→≡ red))
      | inr not_red ↦
          absurd (let k : none ≡ some effect = rw (not_blue, not_green, not_red) at h in cc k)
    ]
  ]
]

-- What holds of a session: completion is read off the mask, and unless red was pressed, two presses are made or left.
record IsSwitched (g : SwitchSession) (completed : Bool) : Type 0 where
  complete : completed ≡ eqb g.mask 15
  left_over : ¬ In "red" g.actions → (k : ℕ) × Reached g.mask k × (2 ≤ length g.actions + k)

module _ (rt : Runtime) where
  IsSwitched-kept : Keeps (switch_environment rt) IsSwitched
  unfolding switch_reset switch_step
  IsSwitched-kept = record {
    at_reset = λ seed g o h.
        let (_, k) = raise_if-eq-ok _ _ _ h in
        let e : ◌≡◌ {A = SwitchSession × StepOutcome} (switch_start, switch_outcome rt switch_start)
            (g, o) =
          ok-injective k in
        subst (λ (q : SwitchSession × StepOutcome). IsSwitched q.0 q.1.completed) e
          (record { complete = refl; left_over = λ _. (2, dark, omega arith) });
    at_step = λ g a g' o i h.
        let (effect, found, e) =
          lookup-eq-ok (has_arguments a.arguments) (find_effect a.name) _ _
            (λ effect. (
              switch_advance rt g a.name effect,
              switch_outcome rt (switch_advance rt g a.name effect),
            ))
            h in
        subst (λ (q : SwitchSession × StepOutcome). IsSwitched q.0 q.1.completed) e
          (record {
            complete = refl;
            left_over = λ lawful.
                let (k, reached, enough) =
                  i.left_over (λ n. lawful (In-append_left g.actions (a.name ∷ []) "red" n)) in
                let longer = length-append g.actions (a.name ∷ []) in
                elim (effects a.name effect found) [
                  | inl blue ↦
                      let (k', now, le) = press_blue g.mask k reached in
                      rw blue (k', now, omega (arith, le, enough, longer))
                  | inr (inl green) ↦
                      let (k', now, le) = press_green g.mask k reached in
                      rw green (k', now, omega (arith, le, enough, longer))
                  | inr (inr red) ↦
                      absurd
                        (lawful (In-append_right g.actions (a.name ∷ []) "red" (inl (sym red))))
                ];
          });
  }

  verified :
      (g : SwitchSession) (outcomes : List ConstraintOutcome)
      → verify_all (switch_environment rt) g (never_press_red ∷ []) ≡ ok outcomes
      → (o : ConstraintOutcome) × (outcomes ≡ o ∷ []) × (o.passed ≡ not (contains "red" g.actions))
  unfolding verify_all verify_never_used
  verified g outcomes h = (_, sym (ok-injective h), refl)

  -- The performance of an eligible result on the switchboard is a count of two presses at least.
  pub switchboard-ge-two :
      (tr : Trajectory) (run_id : Option String) (m : Option EfficiencyMetrics)
      (r : BenchmarkResult)
      → evaluate_trajectory (switch_environment rt) tr run_id m ≡ ok r
      → performance_eligible_for r switch_task_spec ≡ true
      → (presses : ℕ) × (r.performance_value ≡ some (float presses)) × (2 ≤ presses)
  switchboard-ge-two tr run_id m r h eligible =
      let a : Achieved (switch_environment rt) IsSwitched r =
        evaluate_trajectory-Achieved (switch_environment rt) IsSwitched IsSwitched-kept tr run_id m
          r h eligible in
      let (o, single, passed) = verified a.final r.constraint_outcomes a.verifies in
      let (_, passes) = a.satisfied.declared o (subst (In o) (sym single) (inl refl)) in
      let lawful : ¬ In "red" a.final.actions =
        not-In_of_contains "red" a.final.actions (ground arith) in
      let lit : a.final.mask ≡ 15 = (eqb_iff _ _).0 (sym a.holds.complete) in
      let (k, reached, enough) = a.holds.left_over lawful in
      let none_left : k ≡ 0 = lit_left k (subst (λ n. Reached n k) lit reached) in
      (length a.final.actions, a.performs, omega (arith, none_left, enough))
    where
      lit_left : (k : ℕ) → Reached 15 k → k ≡ 0
      lit_left k all_lit = refl
