-- ===== src/Phase3/Selection.antt =====
-- `_select` of milestone6_phase3_selection.py: the choice among the candidates of a condition.
pub mod Tolerance
pub mod Best
pub mod Medians
use levelup_bench.Prelude.{
  ℕ, ◌+◌, ◌*◌, String, Bool, true, false, not, ◌&&◌, List, [], ◌∷◌, Option, none, some, length, map,
  select, contains, to_set, string_eq, ◌==◌, eqb, ltb, Result, ok, raise, raise_if, ◌>>=◌, ◌>>◌,
  if◌then◌else◌,
}
use levelup_bench.Prelude.Int.{ℤ, pos, negsuc}
use levelup_bench.Prelude.Fractions.{Fraction, less_fraction, Difference, sub_fraction}
use levelup_bench.Prelude.Orders.{lex}
use levelup_bench.Core.Faults.{Fault, key_error, selection_error}
use levelup_bench.Phase3.Metrics.{
  CandidateTuple, expected_tuples, UnitRecord, ModelOwner, OwnerCost, FamilyMetric, SelectedMetric,
  families, family_metrics, min_of, max_of, macro_average_of, find_owner, trained_for, total_cost,
}

-- `H4_SHUFFLED_CONDITION`, and the others of `NEW_CONDITIONS`.
abbrev pub s_condition : String
s_condition = "S-state-availability-listwise-optimum"

abbrev pub h0_condition : String
h0_condition = "H0-null-history-transition-listwise-optimum"

abbrev pub h4_condition : String
h4_condition = "H4-causal-history-transition-listwise-optimum"

abbrev pub h4_shuffled_condition : String
h4_shuffled_condition = "H4-shuffled-history-transition-listwise-optimum"

-- A value of `variants`: the records and the owner ids of a candidate.
pub record Variant : Type 0 where
  pub tuple_id : String
  pub records : List UnitRecord
  pub owner_ids : List String

-- `variants[tuple_id]`
unfoldable pub find_variant : String → List Variant → Option Variant
find_variant id [] = none
find_variant id (v ∷ rest) = if v.tuple_id == id then some v else find_variant id rest

unfoldable pub unknown_family : List UnitRecord → Bool
unknown_family [] = false
unknown_family (r ∷ rest) = if contains r.family_id families then unknown_family rest else true

unfoldable pub wrong_coverage : List FamilyMetric → Bool
wrong_coverage [] = false
wrong_coverage (m ∷ rest) = if eqb m.units 40 then wrong_coverage rest else true

-- `difference > SUCCESS_TOLERANCE`, one twentieth.
abbrev pub exceeds_tolerance : Difference → Bool
exceeds_tolerance d = elim d.numerator [
  | pos n ↦ ltb (1 + d.denominator_less_one) (20 * n)
  | negsuc n ↦ false
]

abbrev by_number : (SelectedMetric → ℕ) → SelectedMetric → SelectedMetric → Bool
by_number f x y = ltb (f x) (f y)

abbrev by_fraction : (SelectedMetric → Fraction) → SelectedMetric → SelectedMetric → Bool
by_fraction f x y = less_fraction (f x) (f y)

-- The comparison of the keys of `min(eligible, key=…)`.
unfoldable pub better : SelectedMetric → SelectedMetric → Bool
better = lex (by_fraction (λ m. m.worst_median)) (
    lex (by_fraction (λ m. m.macro_average)) (
      lex (by_number (λ m. m.optimizer_steps)) (
        lex (by_number (λ m. m.forward_passes)) (
          lex (by_number (λ m. m.recurrent_steps)) (
            lex (by_fraction (λ m. m.candidate_tuple.learning_rate)) (
              lex (by_number (λ m. m.candidate_tuple.epochs))
                (by_fraction (λ m. m.candidate_tuple.temperature))))))))

-- `Phase3ConditionSelection`
pub record ConditionSelection : Type 0 where
  pub condition_id : String
  pub candidates : List SelectedMetric
  pub best_minimum_rate : Fraction
  pub retained_tuple_ids : List String
  pub selected : SelectedMetric

-- `best_primary - item.minimum_family_success_rate <= SUCCESS_TOLERANCE`
abbrev pub within_tolerance : Fraction → SelectedMetric → Bool
within_tolerance best m = not (exceeds_tolerance (sub_fraction best m.minimum_rate))

module _ (condition : String) (variants : List Variant) (owners : List ModelOwner)
    (diagnostics : List OwnerCost) (heldout training : Option Bool) where
  -- `… if base_condition == H4_SHUFFLED_CONDITION else None`
  abbrev for_shuffled : Option Bool → Option Bool
  for_shuffled flag = if condition == h4_shuffled_condition then flag else none

  -- The body of the loop, on the records and owners of a candidate.
  unfoldable pub candidate : CandidateTuple → Variant → Result Fault SelectedMetric
  candidate t v = do
    raise_if (unknown_family v.records) key_error
    metrics ← family_metrics v.records families
    raise_if (wrong_coverage metrics) selection_error
    let ids = select (λ id. trained_for condition t (find_owner id owners)) (to_set v.owner_ids)
    raise_if (not (eqb (length ids) 30)) selection_error
    rate ← min_of less_fraction (map (λ m. m.success_rate) metrics)
    worst ← max_of less_fraction (map (λ m. m.median_interactions) metrics)
    steps ← total_cost (λ c. c.optimizer_steps) diagnostics ids
    passes ← total_cost (λ c. c.forward_passes) diagnostics ids
    recurrent ← total_cost (λ c. c.recurrent_steps) diagnostics ids
    ok (record {
      condition_id = condition;
      candidate_tuple = t;
      family_metrics = metrics;
      minimum_rate = rate;
      worst_median = worst;
      macro_average = macro_average_of metrics;
      optimizer_steps = steps;
      forward_passes = passes;
      recurrent_steps = recurrent;
      heldout_shuffle_eligible = for_shuffled heldout;
      training_shuffle_eligible = for_shuffled training;
    })

  -- The loop over the expected tuples.
  unfoldable pub candidates_of : List CandidateTuple → Result Fault (List SelectedMetric)
  candidates_of [] = ok []
  candidates_of (t ∷ rest) =
      let others = candidates_of rest in
      elim (find_variant t.tuple_id variants) [
        | none ↦ raise selection_error
        | some v ↦ candidate t v >>= λ m. others >>= λ ms. ok (m ∷ ms)
      ]

  -- The part of `_select` after the loop. The candidates that are equal to an eligible one are the
  -- eligible ones.
  unfoldable pub choose : List SelectedMetric → Result Fault ConditionSelection
  choose candidates = do
    raise_if (not (eqb (length candidates) 12)) selection_error
    best ← max_of less_fraction (map (λ m. m.minimum_rate) candidates)
    let eligible = select (within_tolerance best) candidates
    selected ← min_of better eligible
    ok (record {
      condition_id = condition;
      candidates = candidates;
      best_minimum_rate = best;
      retained_tuple_ids = map (λ m. m.candidate_tuple.tuple_id) eligible;
      selected = selected;
    })

  -- `_select`
  unfoldable pub select_condition : Result Fault ConditionSelection
  select_condition = candidates_of expected_tuples >>= choose
