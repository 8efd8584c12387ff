-- ===== src/Phase3/Outcomes.antt =====
-- `UnitOutcome` of levelup/experiments/runner/records.py, and `_restricted_interactions`.
use levelup_bench.Prelude.{
  ℕ, ◌≤◌, ◌≡◌, ◌↔◌, String, Bool, true, false, not, ◌&&◌, ◌||◌, Option, none, some, eqb, ltb, arith,
  Result, ok, raise, raise_if, ◌>>◌, ok-injective, raise_if-eq-ok, Bool-cases, if◌then◌else◌, inl,
  inr,
}
use levelup_bench.Core.Faults.{
  Fault, value_error, selection_error, validity_unchecked, success_unchecked, performance_missing,
  completion_invalid, threshold_without_success, optimum_without_success, actions_without_success,
  censoring_unpaired, reason_without_censoring, success_censored,
}
use levelup_bench.Core.Numbers.{Float}
use levelup_bench.Core.Task.{Direction}

-- `Literal["fixed_endpoint"]`
pub data CensoringReason : Type 0 where
  fixed_endpoint : CensoringReason

pub record UnitOutcome : Type 0 where
  pub evaluator_ran : Bool
  pub valid : Bool
  pub completed : Bool
  pub success : Bool
  pub quality_value : Option Float
  pub performance_metric_id : String
  pub performance_value : Option Float
  pub performance_direction : Direction
  pub first_valid_completion_episode : Option ℕ
  pub first_threshold_episode : Option ℕ
  pub first_optimum_episode : Option ℕ
  pub first_optimum_adaptation_actions : Option ℕ
  pub censored : Bool
  pub censoring_budget : Option ℕ
  pub censoring_reason : Option CensoringReason

-- `value is not None`
abbrev pub given : {A : Type 0} → Option A → Bool
given none = false
given (some a) = true

-- `!=` of two truth values.
abbrev unlike : Bool → Bool → Bool
unlike true b = not b
unlike false b = b

-- `UnitOutcome.outcome_is_consistent`, on the fields that were given.
unfoldable pub check_outcome : UnitOutcome → Result Fault UnitOutcome
check_outcome o =
    raise_if (o.valid && not o.evaluator_ran) (value_error validity_unchecked)
    >> raise_if (o.success && not (o.evaluator_ran && (o.valid && o.completed)))
        (value_error success_unchecked)
    >> raise_if (o.valid && (o.completed && not (given o.performance_value)))
        (value_error performance_missing)
    >> raise_if (given o.first_valid_completion_episode && not (o.valid && o.completed))
        (value_error completion_invalid)
    >> raise_if (given o.first_threshold_episode && not o.success)
        (value_error threshold_without_success)
    >> raise_if (given o.first_optimum_episode && not o.success)
        (value_error optimum_without_success)
    >> raise_if (given o.first_optimum_adaptation_actions && not o.success)
        (value_error actions_without_success)
    >> raise_if (unlike o.censored (given o.censoring_budget)) (value_error censoring_unpaired)
    >> raise_if (given o.censoring_reason && not o.censored) (value_error reason_without_censoring)
    >> raise_if (o.censored && o.success) (value_error success_censored)
    >> ok o

-- `FAILURE_CENSORING_BUDGET` and `FAILURE_SENTINEL`.
abbrev pub censoring_limit : ℕ
censoring_limit = 2048

abbrev pub failure_sentinel : ℕ
failure_sentinel = 2049

-- `value is None or value > FAILURE_CENSORING_BUDGET`, or the value.
abbrev first_hit : Option ℕ → Result Fault ℕ
first_hit none = raise selection_error
first_hit (some n) = if ltb censoring_limit n then raise selection_error else ok n

abbrev at_limit : Option ℕ → Bool
at_limit none = false
at_limit (some n) = eqb n censoring_limit

unfoldable pub restricted_interactions : UnitOutcome → Result Fault ℕ
restricted_interactions o =
    if o.success
    then first_hit o.first_optimum_adaptation_actions
    else raise_if
        (not o.censored
          || (not (at_limit o.censoring_budget)
              || (not (given o.censoring_reason) || given o.first_optimum_adaptation_actions)))
        selection_error
      >> ok failure_sentinel

first_hit-le : (v : Option ℕ) (n : ℕ) → first_hit v ≡ ok n → n ≤ 2048
first_hit-le none n h = cc
first_hit-le (some m) n h = elim (Bool-cases (ltb 2048 m)) [
  | inl over ↦ absurd (let k : raise _ ≡ ok n = rw over at h in cc k)
  | inr within ↦
      let k : ok m ≡ ok n = rw within at h in let e : m ≡ n = ok-injective k in ground arith
]

-- The restricted interactions of a unit are at most 2049, and at most 2048 exactly if it succeeded, so that a failure counts for more than every success.
pub restricted_interactions-le :
    (o : UnitOutcome) (n : ℕ)
    → restricted_interactions o ≡ ok n
    → (n ≤ 2049) × ((o.success ≡ true) ↔ (n ≤ 2048))
unfolding restricted_interactions
restricted_interactions-le o n h = elim (Bool-cases o.success) [
  | inl won ↦
      let le : n ≤ 2048 = first_hit-le o.first_optimum_adaptation_actions n (rw won at h) in
      (omega (arith, le), (λ _. le, λ _. won))
  | inr lost ↦
      let (_, k) = raise_if-eq-ok _ _ _ (let w = h in rw lost at w) in
      let e : 2049 ≡ n = ok-injective k in
      (omega (arith, e), ((λ w. absurd (ground arith)), λ le. absurd (omega (arith, e, le))))
]
