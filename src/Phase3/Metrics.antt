-- ===== src/Phase3/Metrics.antt =====
-- The metrics of a candidate in milestone6_phase3_selection.py: medians, rates and costs.
use levelup_bench.Prelude.{
  ℕ, zero, suc, ◌+◌, ◌-◌, String, Bool, false, ◌&&◌, List, [], ◌∷◌, Option, none, some, length, map,
  select, string_eq, ◌==◌, nonzero, Result, ok, raise, ◌>>=◌, if◌then◌else◌,
}
use Prim.Native.Nat.{◌/◌, ◌%◌}
use levelup_bench.Prelude.Arrays.{item_at}
use levelup_bench.Prelude.Fractions.{Fraction, whole, over, add_fraction, divide_fraction}
use levelup_bench.Prelude.Orders.{least}
use levelup_bench.Core.Faults.{
  Fault, value_error, key_error, zero_division, index_error, empty_sequence,
}
use levelup_bench.Core.Reference.{sorted}
use levelup_bench.Phase3.Outcomes.{UnitOutcome, restricted_interactions}

-- `FAMILIES`
abbrev pub families : List String
families = "plain" ∷ "battery" ∷ "cooldown" ∷ "heat" ∷ "momentum" ∷ "combo" ∷ []

-- An entry of `EXPECTED_TUPLES`, with what `rsplit("-t", 1)[0]` and `_tuple_numeric` read off it.
pub record CandidateTuple : Type 0 where
  pub tuple_id : String
  pub training_tuple_id : String
  pub learning_rate : Fraction
  pub epochs : ℕ
  pub temperature : Fraction

-- 3 / 1000, 1 / 100, 6 / 10, 9 / 10 and 12 / 10.
abbrev pub expected_tuples : List CandidateTuple
expected_tuples =
    record {
      tuple_id = "lr0p003-e120-t0p6";
      training_tuple_id = "lr0p003-e120";
      learning_rate = over 3 999;
      epochs = 120;
      temperature = over 6 9;
    }
    ∷ record {
      tuple_id = "lr0p003-e120-t0p9";
      training_tuple_id = "lr0p003-e120";
      learning_rate = over 3 999;
      epochs = 120;
      temperature = over 9 9;
    }
    ∷ record {
      tuple_id = "lr0p003-e120-t1p2";
      training_tuple_id = "lr0p003-e120";
      learning_rate = over 3 999;
      epochs = 120;
      temperature = over 12 9;
    }
    ∷ record {
      tuple_id = "lr0p003-e180-t0p6";
      training_tuple_id = "lr0p003-e180";
      learning_rate = over 3 999;
      epochs = 180;
      temperature = over 6 9;
    }
    ∷ record {
      tuple_id = "lr0p003-e180-t0p9";
      training_tuple_id = "lr0p003-e180";
      learning_rate = over 3 999;
      epochs = 180;
      temperature = over 9 9;
    }
    ∷ record {
      tuple_id = "lr0p003-e180-t1p2";
      training_tuple_id = "lr0p003-e180";
      learning_rate = over 3 999;
      epochs = 180;
      temperature = over 12 9;
    }
    ∷ record {
      tuple_id = "lr0p01-e120-t0p6";
      training_tuple_id = "lr0p01-e120";
      learning_rate = over 1 99;
      epochs = 120;
      temperature = over 6 9;
    }
    ∷ record {
      tuple_id = "lr0p01-e120-t0p9";
      training_tuple_id = "lr0p01-e120";
      learning_rate = over 1 99;
      epochs = 120;
      temperature = over 9 9;
    }
    ∷ record {
      tuple_id = "lr0p01-e120-t1p2";
      training_tuple_id = "lr0p01-e120";
      learning_rate = over 1 99;
      epochs = 120;
      temperature = over 12 9;
    }
    ∷ record {
      tuple_id = "lr0p01-e180-t0p6";
      training_tuple_id = "lr0p01-e180";
      learning_rate = over 1 99;
      epochs = 180;
      temperature = over 6 9;
    }
    ∷ record {
      tuple_id = "lr0p01-e180-t0p9";
      training_tuple_id = "lr0p01-e180";
      learning_rate = over 1 99;
      epochs = 180;
      temperature = over 9 9;
    }
    ∷ record {
      tuple_id = "lr0p01-e180-t1p2";
      training_tuple_id = "lr0p01-e180";
      learning_rate = over 1 99;
      epochs = 180;
      temperature = over 12 9;
    }
    ∷ []

-- What the selector reads of a unit record.
pub record UnitRecord : Type 0 where
  pub family_id : String
  pub outcome : UnitOutcome

-- What it reads of a model owner.
pub record ModelOwner : Type 0 where
  pub owner_id : String
  pub condition_id : String
  pub training_tuple_id : String

-- The values of `diagnostics`, by owner.
pub record OwnerCost : Type 0 where
  pub owner_id : String
  pub optimizer_steps : ℕ
  pub forward_passes : ℕ
  pub recurrent_steps : ℕ

pub record FamilyMetric : Type 0 where
  pub family_id : String
  pub units : ℕ
  pub successes : ℕ
  pub success_rate : Fraction
  pub median_interactions : Fraction

-- `Phase3SelectedMetric`, with the candidate tuple in place of the two texts.
pub record SelectedMetric : Type 0 where
  pub condition_id : String
  pub candidate_tuple : CandidateTuple
  pub family_metrics : List FamilyMetric
  pub minimum_rate : Fraction
  pub worst_median : Fraction
  pub macro_average : Fraction
  pub optimizer_steps : ℕ
  pub forward_passes : ℕ
  pub recurrent_steps : ℕ
  pub heldout_shuffle_eligible : Option Bool
  pub training_shuffle_eligible : Option Bool

-- `ordered[i]`
abbrev indexed : Option ℕ → Result Fault ℕ
indexed none = raise index_error
indexed (some n) = ok n

-- `_median`
unfoldable pub median : List ℕ → Result Fault Fraction
median values =
    let ordered = sorted values in
    let middle = length ordered / 2 in
    if nonzero (length ordered % 2)
    then (indexed (item_at middle ordered) >>= λ n. ok (whole n))
    else (indexed (item_at (middle - 1) ordered) >>= λ m.
        indexed (item_at middle ordered) >>= λ n. ok (over (m + n) 1))

unfoldable pub all_restricted : List UnitRecord → Result Fault (List ℕ)
all_restricted [] = ok []
all_restricted (r ∷ rest) = do
  n ← restricted_interactions r.outcome
  others ← all_restricted rest
  ok (n ∷ others)

-- `Fraction(n, d)`
abbrev fraction : ℕ → ℕ → Result Fault Fraction
fraction n zero = raise zero_division
fraction n (suc d) = ok (over n d)

-- The metric of a family, from all the records of a candidate.
unfoldable pub family_metric : List UnitRecord → String → Result Fault FamilyMetric
family_metric records family =
    let mine = select (λ r. r.family_id == family) records in
    let successes = length (select (λ r. r.outcome.success) mine) in
    fraction successes (length mine) >>= λ rate. all_restricted mine >>= λ values.
    median values >>= λ m. ok (record {
      family_id = family;
      units = length mine;
      successes = successes;
      success_rate = rate;
      median_interactions = m;
    })

unfoldable pub family_metrics : List UnitRecord → List String → Result Fault (List FamilyMetric)
family_metrics records [] = ok []
family_metrics records (family ∷ rest) = do
  m ← family_metric records family
  others ← family_metrics records rest
  ok (m ∷ others)

-- `min(xs)` by an order, and `max(xs)` by the opposite one.
unfoldable pub min_of : {A : Type 0} → (A → A → Bool) → List A → Result Fault A
min_of lt [] = raise (value_error empty_sequence)
min_of lt (x ∷ xs) = ok (least lt x xs)

unfoldable pub max_of : {A : Type 0} → (A → A → Bool) → List A → Result Fault A
max_of lt xs = min_of (λ x y. lt y x) xs

abbrev pub sum_fractions : List Fraction → Fraction
sum_fractions [] = whole 0
sum_fractions (p ∷ rest) = add_fraction p (sum_fractions rest)

-- `sum(…) / len(family_metrics)`, which has six entries.
abbrev pub macro_average_of : List FamilyMetric → Fraction
macro_average_of metrics =
    divide_fraction (sum_fractions (map (λ m. m.median_interactions) metrics)) 5

-- `owners.get(owner_id)` and `diagnostics.get(owner_id)`
unfoldable pub find_owner : String → List ModelOwner → Option ModelOwner
find_owner id [] = none
find_owner id (o ∷ rest) = if o.owner_id == id then some o else find_owner id rest

unfoldable pub find_cost : String → List OwnerCost → Option OwnerCost
find_cost id [] = none
find_cost id (c ∷ rest) = if c.owner_id == id then some c else find_cost id rest

abbrev pub trained_for : String → CandidateTuple → Option ModelOwner → Bool
trained_for condition t none = false
trained_for condition t (some o) =
    o.condition_id == condition && o.training_tuple_id == t.training_tuple_id

-- `sum(diagnostics[item][i] for item in selected_owner_ids)`
unfoldable pub total_cost : (OwnerCost → ℕ) → List OwnerCost → List String → Result Fault ℕ
total_cost f diagnostics [] = ok 0
total_cost f diagnostics (id ∷ rest) =
    let others = total_cost f diagnostics rest in
    elim (find_cost id diagnostics) [
      | none ↦ raise key_error
      | some c ↦ others >>= λ n. ok (f c + n)
    ]
