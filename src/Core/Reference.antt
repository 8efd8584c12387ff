-- ===== src/Core/Reference.antt =====
-- levelup/core/reference.py
pub mod Tiers
use levelup_bench.Prelude.{
  ℕ, String, Bool, not, List, [], ◌∷◌, Option, map, leb, Result, ok, raise_if, ◌>>◌, if◌then◌else◌,
}
use levelup_bench.Core.Faults.{Fault, value_error, reference_ids_not_unique, tiers_out_of_order}
use levelup_bench.Core.Json.{Fields}
use levelup_bench.Core.Numbers.{Float}
use levelup_bench.Core.Task.{all_unique}
use levelup_bench.Core.Trajectory.{same_numbers}

pub data PerformanceTier : Type 0 where
  novice human experienced_human elite_human world_record tas proven_optimum : PerformanceTier

-- `_TIER_ORDER`
abbrev pub tier_order : PerformanceTier → ℕ
tier_order novice = 0
tier_order human = 1
tier_order experienced_human = 2
tier_order elite_human = 3
tier_order world_record = 4
tier_order tas = 5
tier_order proven_optimum = 6

pub record ReferenceEntry : Type 0 where
  pub reference_id : String
  pub tier : PerformanceTier
  pub performance_value : Float
  pub trajectory_id : Option String
  pub verified : Bool
  pub provenance : Fields

pub record ReferenceLadder : Type 0 where
  pub task_id : String
  pub entries : List ReferenceEntry

-- `sorted`, by insertion.
unfoldable pub insert : ℕ → List ℕ → List ℕ
insert x [] = x ∷ []
insert x (y ∷ ys) = if leb x y then x ∷ y ∷ ys else y ∷ insert x ys

unfoldable pub sorted : List ℕ → List ℕ
unfolding insert
sorted [] = []
sorted (x ∷ xs) = insert x (sorted xs)

abbrev pub ranks : List ReferenceEntry → List ℕ
ranks = map (λ e. tier_order e.tier)

-- `ReferenceLadder.entries_are_well_formed`, on the fields that were given.
pub check_reference_ladder : ReferenceLadder → Result Fault ReferenceLadder
check_reference_ladder l =
    raise_if (not (all_unique (map (λ e. e.reference_id) l.entries)))
      (value_error reference_ids_not_unique)
    >> raise_if (not (same_numbers (ranks l.entries) (sorted (ranks l.entries))))
        (value_error tiers_out_of_order)
    >> ok l
