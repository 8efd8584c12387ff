-- ===== src/Tests/Grouping.antt =====
-- The grouping of a matrix of three records, on which the theorem about it is applied.
use levelup_bench.Prelude.{String, ◌≡◌, ◌↔◌, refl, List, [], ◌∷◌, All, In, IsUnique, string_eq, ok}
use levelup_bench.Prelude.Lists.{contains}
use levelup_bench.Prelude.Texts.{join}
use levelup_bench.Phase3.Selection.{s_condition, h0_condition}
use levelup_bench.Phase3.Grouping.{
  PlannedUnit, MatrixRecord, find_planned, add_owner, add_record, find_bucket, group_records,
  Bucket, bucket_key,
}
use levelup_bench.Phase3.Grouping.Filed.{
  IsPlanned, contents, mine, owners_of, units_of, group_records-Filed,
}
use levelup_bench.Tests.Selection.{hit}

abbrev planned_unit : String → String → String → PlannedUnit
planned_unit id condition owner = record {
  unit_id = id;
  base_condition_id = condition;
  tuple_id = "lr0p003-e120-t0p6";
  model_owner_id = owner;
}

abbrev plan : List PlannedUnit
plan =
    planned_unit "u1" s_condition "o1"
    ∷ planned_unit "u2" h0_condition "o2"
    ∷ planned_unit "u3" s_condition "o3"
    ∷ []

abbrev matrix_record : String → String → String → MatrixRecord
matrix_record id condition family = record {
  unit_id = id;
  condition_id = join (condition ∷ "--lr0p003-e120-t0p6" ∷ []);
  unit = record { family_id = family; outcome = hit };
}

abbrev matrix : List MatrixRecord
matrix =
    matrix_record "u3" s_condition "heat"
    ∷ matrix_record "u2" h0_condition "plain"
    ∷ matrix_record "u1" s_condition "combo"
    ∷ []

sample_buckets : (bs : List Bucket) × (group_records plan matrix [] ≡ ok bs)
unfolding group_records find_planned contains join add_record add_owner
sample_buckets = (_, refl)

abbrev sample_key : String
sample_key = bucket_key s_condition "lr0p003-e120-t0p6"

sample_owners : (contents (find_bucket sample_key sample_buckets.0)).1 ≡ "o3" ∷ "o1" ∷ []
unfolding sample_buckets find_bucket join
sample_owners = refl

group_records-Filed_example :
    All (IsPlanned plan) matrix
    × ((contents (find_bucket sample_key sample_buckets.0)).0
        ≡ units_of plan (mine plan sample_key matrix))
    × IsUnique (contents (find_bucket sample_key sample_buckets.0)).1
    × ((o : String)
        → In o (contents (find_bucket sample_key sample_buckets.0)).1
          ↔ In o (owners_of plan (mine plan sample_key matrix)))
group_records-Filed_example =
    group_records-Filed plan matrix sample_buckets.0 sample_key sample_buckets.1
