-- ===== src/Core/Outcome/Validity.antt =====
-- What it means for a result to be valid and eligible.
use levelup_bench.Prelude.{
  ◌≡◌, ◌↔◌, sym, ap, refl, String, true, List, [], ◌∷◌, contains_iff, string_eq, ◌==◌, ==→≡, arith,
  In, inl, inr, ok, raise_if-eq-ok, ok-injective,
}
use levelup_bench.Core.Task.{TaskSpec, constraint_ids}
use levelup_bench.Core.Outcome.{
  ConstraintOutcome, BenchmarkResult, check_result, outcome_ids, subset, same_set, all_passed,
  valid_for, performance_eligible_for,
}

-- The validator changes no field.
pub check_result-same : (r r' : BenchmarkResult) → check_result r ≡ ok r' → r ≡ r'
unfolding check_result
check_result-same r r' h = ok-injective (raise_if-eq-ok _ _ _ h).1

subset_iff : (xs ys : List String) → (subset xs ys ≡ true) ↔ ((a : String) → In a xs → In a ys)
unfolding subset
subset_iff [] ys = (λ h a m. absurd m, λ h. refl)
subset_iff (x ∷ xs) ys = (
  λ h a. elim [
    | inl same ↦ rw same ((contains_iff x ys).0 (ground arith))
    | inr m ↦ (subset_iff xs ys).0 (ground arith) a m
  ],
  λ h. rw ((contains_iff x ys).1 (h x (inl refl))) ((subset_iff xs ys).1 (λ a m. h a (inr m))),
)

all_passed_iff :
    (os : List ConstraintOutcome)
    → (all_passed os ≡ true) ↔ ((o : ConstraintOutcome) → In o os → o.passed ≡ true)
unfolding all_passed
all_passed_iff [] = (λ h o m. absurd m, λ h. refl)
all_passed_iff (x ∷ xs) = (
  λ h o. elim [
    | inl same ↦ rw same (ground arith)
    | inr m ↦ (all_passed_iff xs).0 (ground arith) o m
  ],
  λ h. rw (h x (inl refl)) ((all_passed_iff xs).1 (λ o m. h o (inr m))),
)

In-outcome_ids :
    (os : List ConstraintOutcome) (o : ConstraintOutcome)
    → In o os
    → In o.constraint_id (outcome_ids os)
In-outcome_ids [] o m = absurd m
In-outcome_ids (x ∷ xs) o (inl same) = inl (ap (λ (c : ConstraintOutcome). c.constraint_id) same)
In-outcome_ids (x ∷ xs) o (inr m) = inr (In-outcome_ids xs o m)

outcome_ids-In :
    (os : List ConstraintOutcome) (a : String)
    → In a (outcome_ids os)
    → (o : ConstraintOutcome) × In o os × (o.constraint_id ≡ a)
outcome_ids-In [] a m = absurd m
outcome_ids-In (x ∷ xs) a (inl same) = (x, inl refl, sym same)
outcome_ids-In (x ∷ xs) a (inr m) = let (o, n, p) = outcome_ids-In xs a m in (o, inr n, p)

-- The contract of a valid result: it is of this task, every declared constraint has a passing
-- outcome, every outcome is of a declared constraint, and all of them have passed.
pub record IsSatisfied (r : BenchmarkResult) (task : TaskSpec) : Type 0 where
  pub own_task : r.task_id ≡ task.task_id
  pub covered :
      (a : String)
      → In a (constraint_ids task.constraints)
      → (o : ConstraintOutcome) × In o r.constraint_outcomes
        × (o.constraint_id ≡ a)
        × (o.passed ≡ true)
  pub declared :
      (o : ConstraintOutcome)
      → In o r.constraint_outcomes
      → In o.constraint_id (constraint_ids task.constraints) × (o.passed ≡ true)

-- `valid_for` holds exactly if the result is of this task, every declared constraint has a passing
-- outcome, and every outcome is of a declared constraint and has passed.
pub valid_for_iff :
    (r : BenchmarkResult) (task : TaskSpec) → (valid_for r task ≡ true) ↔ IsSatisfied r task
unfolding valid_for same_set
valid_for_iff r task = (forward, backward)
  where
    forward : valid_for r task ≡ true → IsSatisfied r task
    forward h =
        let ids = outcome_ids r.constraint_outcomes in
        let expected = constraint_ids task.constraints in
        let own : (r.task_id == task.task_id) ≡ true = ground arith in
        let ahead : subset ids expected ≡ true = ground arith in
        let back : subset expected ids ≡ true = ground arith in
        let passed : all_passed r.constraint_outcomes ≡ true = ground arith in
        record {
          own_task = ==→≡ own;
          covered = λ a m.
              let (o, n, p) =
                outcome_ids-In r.constraint_outcomes a ((subset_iff expected ids).0 back a m) in
              (o, n, p, (all_passed_iff r.constraint_outcomes).0 passed o n);
          declared = λ o m. (
            (subset_iff ids expected).0 ahead o.constraint_id (In-outcome_ids _ o m),
            (all_passed_iff r.constraint_outcomes).0 passed o m,
          );
        }

    backward : IsSatisfied r task → valid_for r task ≡ true
    backward c =
        let ids = outcome_ids r.constraint_outcomes in
        let expected = constraint_ids task.constraints in
        let own : (r.task_id == task.task_id) ≡ true = (string_eq.beq_iff _ _).1 c.own_task in
        let ahead : subset ids expected ≡ true = (subset_iff ids expected).1 (λ a m.
          let (o, n, p) = outcome_ids-In r.constraint_outcomes a m in
          rw (← p) (c.declared o n).0) in
        let back : subset expected ids ≡ true = (subset_iff expected ids).1 (λ a m.
          let (o, n, p, _) = c.covered a m in
          rw (← p) (In-outcome_ids r.constraint_outcomes o n)) in
        let passed : all_passed r.constraint_outcomes ≡ true =
          (all_passed_iff r.constraint_outcomes).1 (λ o m. (c.declared o m).1) in
        ground arith

pub eligible_parts :
    (r : BenchmarkResult) (task : TaskSpec)
    → performance_eligible_for r task ≡ true
    → (r.completed ≡ true) × IsSatisfied r task
unfolding performance_eligible_for
eligible_parts r task h = (ground arith, (valid_for_iff r task).0 (ground arith))

pub eligible_of_parts :
    (r : BenchmarkResult) (task : TaskSpec)
    → r.completed ≡ true
    → IsSatisfied r task
    → performance_eligible_for r task ≡ true
unfolding performance_eligible_for
eligible_of_parts r task c s = let w = (valid_for_iff r task).1 s in ground arith
