-- ===== src/Phase3/Grouping.antt =====
-- `select_phase3_tuples` of milestone6_phase3_selection.py after the validation of its inputs: the
-- records are grouped by candidate, and each condition selects among its own.
pub mod Owners
pub mod Filed
use levelup_bench.Prelude.{
  ℕ, String, Bool, true, false, not, List, [], ◌∷◌, ◌++◌, Option, none, some, length, map, contains,
  string_eq, ◌==◌, eqb, Result, ok, raise, raise_if, ◌>>=◌, ◌>>◌, if◌then◌else◌,
}
use levelup_bench.Prelude.Texts.{join}
use levelup_bench.Core.Faults.{Fault, selection_error}
use levelup_bench.Phase3.Metrics.{
  CandidateTuple, expected_tuples, UnitRecord, ModelOwner, OwnerCost,
}
use levelup_bench.Phase3.Selection.{
  Variant, ConditionSelection, select_condition, h4_shuffled_condition,
}
use levelup_bench.Phase3.Claims.{new_conditions}

-- What the grouping reads of a planned unit, and of a record of the matrix.
pub record PlannedUnit : Type 0 where
  pub unit_id : String
  pub base_condition_id : String
  pub tuple_id : String
  pub model_owner_id : String

pub record MatrixRecord : Type 0 where
  pub unit_id : String
  pub condition_id : String
  pub unit : UnitRecord

-- `expected.get(unit_id)`, whose keys are the unit ids.
unfoldable pub find_planned : String → List PlannedUnit → Option PlannedUnit
find_planned id [] = none
find_planned id (u ∷ rest) = if u.unit_id == id then some u else find_planned id rest

-- f"{condition}::{tuple_id}"
abbrev pub bucket_key : String → String → String
bucket_key condition tuple_id = join (condition ∷ "::" ∷ tuple_id ∷ [])

-- An entry of `records_by_variant`.
pub record Bucket : Type 0 where
  pub key : String
  pub records : List UnitRecord
  pub owner_ids : List String

-- `add` of a set, as a list without repetition.
unfoldable pub add_owner : String → List String → List String
add_owner owner ids = if contains owner ids then ids else ids ++ owner ∷ []

-- `setdefault` with the two additions.
unfoldable pub add_record : String → UnitRecord → String → List Bucket → List Bucket
add_record key r owner [] = record { key = key; records = r ∷ []; owner_ids = owner ∷ [] } ∷ []
add_record key r owner (b ∷ rest) =
    let added = add_record key r owner rest in
    if b.key == key
    then record {
      key = b.key;
      records = b.records ++ r ∷ [];
      owner_ids = add_owner owner b.owner_ids;
    }
      ∷ rest
    else b ∷ added

unfoldable pub find_bucket : String → List Bucket → Option Bucket
find_bucket key [] = none
find_bucket key (b ∷ rest) = if b.key == key then some b else find_bucket key rest

-- The checks of a record that has a planned unit.
abbrev pub check_record : PlannedUnit → MatrixRecord → Result Fault PlannedUnit
check_record u r = do
  raise_if (not (contains u.base_condition_id new_conditions)) selection_error
  raise_if (not (r.condition_id == join (u.base_condition_id ∷ "--" ∷ u.tuple_id ∷ [])))
      selection_error
  ok u

abbrev pub planned_for : Option PlannedUnit → MatrixRecord → Result Fault PlannedUnit
planned_for none r = raise selection_error
planned_for (some u) r = check_record u r

-- The loop over `matrix.records`.
unfoldable pub group_records :
    List PlannedUnit → List MatrixRecord → List Bucket → Result Fault (List Bucket)
group_records expected [] buckets = ok buckets
group_records expected (r ∷ rest) buckets = planned_for (find_planned r.unit_id expected) r >>= λ u.
    group_records expected rest
      (add_record (bucket_key u.base_condition_id u.tuple_id) r.unit u.model_owner_id buckets)

-- The comprehension of `variants`.
unfoldable pub variants_of : String → List Bucket → List CandidateTuple → List Variant
variants_of condition buckets [] = []
variants_of condition buckets (t ∷ rest) =
    let others = variants_of condition buckets rest in
    elim (find_bucket (bucket_key condition t.tuple_id) buckets) [
      | none ↦ others
      | some b ↦
          record { tuple_id = t.tuple_id; records = b.records; owner_ids = b.owner_ids } ∷ others
    ]

module _ (owners : List ModelOwner) (diagnostics : List OwnerCost)
    (heldout training : Option Bool) where
  -- The body of the loop over the conditions.
  unfoldable pub select_for : List Bucket → String → Result Fault ConditionSelection
  select_for buckets condition =
      let variants = variants_of condition buckets expected_tuples in
      raise_if (not (eqb (length variants) 12)) selection_error
      >> select_condition condition variants owners diagnostics
          (if condition == h4_shuffled_condition then heldout else none) training

  unfoldable pub select_all : List Bucket → List String → Result Fault (List ConditionSelection)
  select_all buckets [] = ok []
  select_all buckets (condition ∷ rest) = do
    s ← select_for buckets condition
    others ← select_all buckets rest
    ok (s ∷ others)

  -- `select_phase3_tuples` from the loop over the records on; `heldout` is what the matrix's control says.
  unfoldable pub select_phase3_tuples :
      List PlannedUnit → List MatrixRecord → Result Fault (List ConditionSelection)
  select_phase3_tuples expected records =
      group_records expected records [] >>= λ buckets. select_all buckets new_conditions
