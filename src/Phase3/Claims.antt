-- ===== src/Phase3/Claims.antt =====
-- `_require_metric` and `evaluate_phase3_claims` of milestone6_phase3_selection.py.
pub mod Lookups
pub mod Gates
use levelup_bench.Prelude.{
  ℕ, ◌+◌, ◌*◌, String, Bool, true, false, not, ◌&&◌, ◌||◌, List, [], ◌∷◌, Option, none, some, map,
  contains, string_eq, ◌==◌, eqb, ltb, leb, Result, ok, raise, raise_if, ◌>>=◌, ◌>>◌, if◌then◌else◌,
}
use levelup_bench.Prelude.Fractions.{
  Fraction, over, less_fraction, same_fraction, Difference, sub_fraction,
}
use levelup_bench.Core.Faults.{Fault, key_error, selection_error}
use levelup_bench.Core.Outcome.{same_set}
use levelup_bench.Phase3.Metrics.{
  CandidateTuple, expected_tuples, FamilyMetric, SelectedMetric, families, min_of, max_of,
  macro_average_of,
}
use levelup_bench.Phase3.Selection.{
  exceeds_tolerance, s_condition, h0_condition, h4_condition, h4_shuffled_condition,
}

abbrev pub new_conditions : List String
new_conditions = s_condition ∷ h0_condition ∷ h4_condition ∷ h4_shuffled_condition ∷ []

-- `==` on tuples of texts.
unfoldable pub same_texts : List String → List String → Bool
same_texts [] [] = true
same_texts [] (y ∷ ys) = false
same_texts (x ∷ xs) [] = false
same_texts (x ∷ xs) (y ∷ ys) = x == y && same_texts xs ys

-- A family metric whose coverage is malformed.
abbrev malformed : FamilyMetric → Bool
malformed m =
    not (eqb m.units 40)
    || (ltb m.units m.successes || not (same_fraction m.success_rate (over m.successes 39)))

unfoldable pub some_malformed : List FamilyMetric → Bool
some_malformed [] = false
some_malformed (m ∷ rest) = if malformed m then true else some_malformed rest

-- The training tuple that an expected tuple has.
unfoldable pub is_expected : CandidateTuple → List CandidateTuple → Bool
is_expected t [] = false
is_expected t (u ∷ rest) =
    let others = is_expected t rest in
    if t.tuple_id == u.tuple_id then t.training_tuple_id == u.training_tuple_id else others

-- `_require_metric`. A rate over 40 units is compared once the units are known to be 40.
unfoldable pub require_metric : SelectedMetric → String → Result Fault Unit
require_metric m condition = do
  raise_if (not (m.condition_id == condition)) selection_error
  raise_if (not (same_texts (map (λ f. f.family_id) m.family_metrics) families)) selection_error
  raise_if (not (is_expected m.candidate_tuple expected_tuples)) selection_error
  raise_if (some_malformed m.family_metrics) selection_error
  rate ← min_of less_fraction (map (λ f. f.success_rate) m.family_metrics)
  worst ← max_of less_fraction (map (λ f. f.median_interactions) m.family_metrics)
  raise_if
      (not (same_fraction m.minimum_rate rate)
        || (not (same_fraction m.worst_median worst)
            || not (same_fraction m.macro_average (macro_average_of m.family_metrics))))
      selection_error
  ok tt

-- An item of the mapping from conditions to metrics.
pub record Choice : Type 0 where
  pub condition : String
  pub metric : SelectedMetric

unfoldable pub find_choice : String → List Choice → Result Fault SelectedMetric
find_choice name [] = raise key_error
find_choice name (c ∷ rest) = if c.condition == name then ok c.metric else find_choice name rest

unfoldable pub require_all : List Choice → Result Fault Unit
require_all [] = ok tt
require_all (c ∷ rest) = require_metric c.metric c.condition >> require_all rest

-- `family_success_rates[family]`
unfoldable pub rate_of : String → List FamilyMetric → Result Fault Fraction
rate_of family [] = raise key_error
rate_of family (m ∷ rest) = if m.family_id == family then ok m.success_rate else rate_of family rest

pub record FamilyDrop : Type 0 where
  pub family_id : String
  pub drop : Difference

-- `family_drops`
unfoldable pub drops_of :
    List FamilyMetric → List FamilyMetric → List String → Result Fault (List FamilyDrop)
drops_of b2 h4 [] = ok []
drops_of b2 h4 (family ∷ rest) = do
  p ← rate_of family b2
  q ← rate_of family h4
  others ← drops_of b2 h4 rest
  ok (record { family_id = family; drop = sub_fraction p q } ∷ others)

unfoldable pub all_tolerated : List FamilyDrop → Bool
all_tolerated [] = true
all_tolerated (d ∷ rest) = not (exceeds_tolerance d.drop) && all_tolerated rest

-- `Phase3ClaimResult`
pub record ClaimResult : Type 0 where
  pub transition_claim : Bool
  pub history_access_claim : Bool
  pub sequence_order_claim : Bool
  pub advancement : Bool
  pub training_shuffle_eligible : Bool
  pub heldout_shuffle_eligible : Bool
  pub transition_gain : Difference
  pub history_gain_over_t : Difference
  pub history_gain_over_h0 : Difference
  pub sequence_order_gain : Difference
  pub family_drops : List FamilyDrop
  pub minimum_drop : Difference

-- `flag is True`
abbrev pub is_true : Option Bool → Bool
is_true none = false
is_true (some b) = b

abbrev pub or_else : Option Bool → Option Bool → Option Bool
or_else none other = other
or_else (some b) other = some b

-- The two flags are given and differ.
abbrev pub disagree : Option Bool → Option Bool → Bool
disagree none b = false
disagree (some a) none = false
disagree (some true) (some b) = not b
disagree (some false) (some b) = b

-- The fields of the result.
abbrev pub claims_from :
    SelectedMetric
    → SelectedMetric
    → SelectedMetric
    → SelectedMetric
    → SelectedMetric
    → SelectedMetric
    → Option Bool
    → List FamilyDrop
    → ClaimResult
claims_from b2 t s h0 h4 shuffled training drops =
    let transition_gain = sub_fraction t.minimum_rate s.minimum_rate in
    let over_t = sub_fraction h4.minimum_rate t.minimum_rate in
    let over_h0 = sub_fraction h4.minimum_rate h0.minimum_rate in
    let order_gain = sub_fraction h4.minimum_rate shuffled.minimum_rate in
    let history = exceeds_tolerance over_t && exceeds_tolerance over_h0 in
    let training_gate = is_true (or_else training shuffled.training_shuffle_eligible) in
    let heldout_gate = is_true shuffled.heldout_shuffle_eligible in
    let sequence = exceeds_tolerance order_gain && (training_gate && heldout_gate) in
    let minimum_drop = sub_fraction b2.minimum_rate h4.minimum_rate in
    record {
      transition_claim = exceeds_tolerance transition_gain;
      history_access_claim = history;
      sequence_order_claim = sequence;
      advancement =
          history && (sequence && (all_tolerated drops && not (exceeds_tolerance minimum_drop)));
      training_shuffle_eligible = training_gate;
      heldout_shuffle_eligible = heldout_gate;
      transition_gain = transition_gain;
      history_gain_over_t = over_t;
      history_gain_over_h0 = over_h0;
      sequence_order_gain = order_gain;
      family_drops = drops;
      minimum_drop = minimum_drop;
    }

-- `evaluate_phase3_claims`, on a mapping with the locked metrics of B2 and T.
unfoldable pub evaluate_claims :
    List Choice → SelectedMetric → SelectedMetric → Option Bool → Result Fault ClaimResult
evaluate_claims choices b2 t training = do
  require_metric b2 "B2-global-listwise-optimum"
  require_metric t "T-markov-state-transition-listwise-optimum"
  raise_if (not (same_set (map (λ c. c.condition) choices) new_conditions)) selection_error
  require_all choices
  s ← find_choice s_condition choices
  h0 ← find_choice h0_condition choices
  h4 ← find_choice h4_condition choices
  shuffled ← find_choice h4_shuffled_condition choices
  raise_if (disagree training shuffled.training_shuffle_eligible) selection_error
  drops ← drops_of b2.family_metrics h4.family_metrics families
  ok (claims_from b2 t s h0 h4 shuffled training drops)
