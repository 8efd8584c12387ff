-- ===== src/Phase3/Grouping/Filed.antt =====
-- That the grouping files each record under the key of its candidate, and nothing else.
use levelup_bench.Prelude.{
  String, Bool, true, false, not, ◌≡◌, ◌∙◌, ◌↔◌, In, IsUnique, subst, refl, sym, ap, List, [], ◌∷◌,
  ◌++◌, Option, none, some, map, select, string_eq, ◌==◌, ==→≡, ==_refl, ok, raise, raise_if, ◌>>◌,
  >>=-eq-ok, raise_if-eq-ok, ok-injective, if◌then◌else◌, Bool-cases, Option-cases, inl, inr, All,
}
use levelup_bench.Prelude.Lists.{contains}
use levelup_bench.Prelude.Texts.{join}
use levelup_bench.Core.Faults.{selection_error}
use levelup_bench.Core.Ladder.Order.{not-false}
use levelup_bench.Phase3.Metrics.{UnitRecord}
use levelup_bench.Phase3.Claims.{new_conditions}
use levelup_bench.Phase3.Grouping.Owners.{added_all, added_all-set}
use levelup_bench.Phase3.Grouping.{
  add_owner, PlannedUnit, MatrixRecord, find_planned, bucket_key, Bucket, add_record, find_bucket,
  check_record, planned_for, group_records,
}

-- The records and the owners under a key; none where the key is missing.
abbrev pub contents : Option Bucket → List UnitRecord × List String
contents none = ([], [])
contents (some b) = (b.records, b.owner_ids)

-- Whether a record is planned for a key, and the owner that it is planned for.
abbrev pub has_key : String → Option PlannedUnit → Bool
has_key key none = false
has_key key (some u) = bucket_key u.base_condition_id u.tuple_id == key

abbrev pub owner_of : Option PlannedUnit → String
owner_of none = ""
owner_of (some u) = u.model_owner_id

appended :
    Bool → UnitRecord → String → List UnitRecord × List String → List UnitRecord × List String
appended b r owner p = if b then (p.0 ++ r ∷ [], add_owner owner p.1) else p

append-nil : {A : Type 0} (xs : List A) → xs ++ [] ≡ xs
append-nil [] = refl
append-nil (x ∷ xs) = ap (λ zs. x ∷ zs) (append-nil xs)

append_one : {A : Type 0} (xs : List A) (x : A) (ys : List A) → (xs ++ x ∷ []) ++ ys ≡ xs ++ x ∷ ys
append_one [] x ys = refl
append_one (y ∷ xs) x ys = ap (λ zs. y ∷ zs) (append_one xs x ys)

contents-add_record :
    (key k : String) (r : UnitRecord) (owner : String) (bs : List Bucket)
    → contents (find_bucket k (add_record key r owner bs))
      ≡ appended (key == k) r owner (contents (find_bucket k bs))
unfolding add_record find_bucket appended add_owner contains
contents-add_record key k r owner [] = elim (Bool-cases (key == k)) [
  | inl same ↦ rw same refl
  | inr other ↦ rw other refl
]
contents-add_record key k r owner (b ∷ rest) = elim (Bool-cases (b.key == key)) [
  | inl here ↦
      let e : b.key ≡ key = ==→≡ here in
      elim (Bool-cases (key == k)) [
        | inl same ↦ rw (add_record, here, find_bucket, e, same) refl
        | inr other ↦ rw (add_record, here, find_bucket, e, other) refl
      ]
  | inr not_here ↦ elim (Bool-cases (b.key == k)) [
    | inl this ↦
        let apart : (key == k) ≡ false = (elim (Bool-cases (key == k)) [
          | inr other ↦ other
          | inl same ↦ absurd (
              let e : b.key ≡ key = ==→≡ this ∙ sym (==→≡ same) in
              let f : (key == key) ≡ false = rw e at not_here in cc (f, ==_refl key))
        ]) in
        rw (add_record, not_here, find_bucket, this, apart) refl
    | inr that ↦
        rw (add_record, not_here, find_bucket, that) (contents-add_record key k r owner rest)
  ]
]

module _ (expected : List PlannedUnit) where
  abbrev pub mine : String → List MatrixRecord → List MatrixRecord
  mine key = select (λ r. has_key key (find_planned r.unit_id expected))

  abbrev pub owners_of : List MatrixRecord → List String
  owners_of = map (λ r. owner_of (find_planned r.unit_id expected))

  abbrev pub units_of : List MatrixRecord → List UnitRecord
  units_of = map (λ r. r.unit)

  -- The record has a planned unit, of a new condition, which it names with the tuple.
  pub record IsPlanned (r : MatrixRecord) : Type 0 where
    pub planned : PlannedUnit
    pub found : find_planned r.unit_id expected ≡ some planned
    pub among : contains planned.base_condition_id new_conditions ≡ true
    pub named :
        (r.condition_id == join (planned.base_condition_id ∷ "--" ∷ planned.tuple_id ∷ [])) ≡ true

  planned_for-IsPlanned :
      (r : MatrixRecord) (u : PlannedUnit)
      → planned_for (find_planned r.unit_id expected) r ≡ ok u
      → (p : IsPlanned r) × (p.planned ≡ u)
  planned_for-IsPlanned r u h = elim (Option-cases (find_planned r.unit_id expected)) [
    | inl missing ↦ absurd (let k : raise selection_error ≡ ok u = rw missing at h in cc k)
    | inr (v, found) ↦
        let k : check_record v r ≡ ok u = rw found at h in
        let named = r.condition_id == join (v.base_condition_id ∷ "--" ∷ v.tuple_id ∷ []) in
        let (a, k1) =
          raise_if-eq-ok (not (contains v.base_condition_id new_conditions)) selection_error
            (raise_if (not named) selection_error >> ok v) k in
        let (b, k2) = raise_if-eq-ok (not named) selection_error (ok v) k1 in
        (
          record { planned = v; found = found; among = not-false _ a; named = not-false _ b },
          ok-injective k2,
        )
  ]

  filed :
      (key : String) (records : List MatrixRecord) (start buckets : List Bucket)
      → group_records expected records start ≡ ok buckets
      → (contents (find_bucket key buckets) ≡ (
        (contents (find_bucket key start)).0 ++ units_of (mine key records),
        added_all (contents (find_bucket key start)).1 (owners_of (mine key records)),
      ))
        × All IsPlanned records
  unfolding group_records appended added_all
  filed key [] start buckets h =
      let e : start ≡ buckets = ok-injective h in
      (rw (← e) (rw (append-nil (contents (find_bucket key start)).0) refl), tt)
  filed key (r ∷ rest) start buckets h =
      let (u, found, h1) = >>=-eq-ok (planned_for (find_planned r.unit_id expected) r) _ h in
      let (p, same) = planned_for-IsPlanned r u found in
      let own = bucket_key u.base_condition_id u.tuple_id in
      let (e, others) = filed key rest (add_record own r.unit u.model_owner_id start) buckets h1 in
      let known : find_planned r.unit_id expected ≡ some u = p.found ∙ ap some same in
      let step = contents-add_record own key r.unit u.model_owner_id start in
      (
        elim (Bool-cases (own == key)) [
          | inl yours ↦
              let mark : has_key key (find_planned r.unit_id expected) ≡ true = rw known yours in
              rw (mark, known)
                (e
                  ∙ rw
                      (
                        step,
                        yours,
                        append_one (contents (find_bucket key start)).0 r.unit
                            (units_of (mine key rest)),
                      )
                      refl)
          | inr other ↦ rw (known, other) (e ∙ rw (step, other) refl)
        ],
        (p, others),
      )

  -- A grouping that returns has found a planned unit of a new condition for every record, which names this condition and its tuple. A key has exactly the records that are planned for it, in the order of the matrix, and the set of their owners.
  pub group_records-Filed :
      (records : List MatrixRecord) (buckets : List Bucket) (key : String)
      → group_records expected records [] ≡ ok buckets
      → All IsPlanned records
        × ((contents (find_bucket key buckets)).0 ≡ units_of (mine key records))
        × IsUnique (contents (find_bucket key buckets)).1
        × ((o : String)
            → In o (contents (find_bucket key buckets)).1 ↔ In o (owners_of (mine key records)))
  unfolding find_bucket
  group_records-Filed records buckets key h =
      let (e, p) = filed key records [] buckets h in
      let ids : (contents (find_bucket key buckets)).1
          ≡ added_all [] (owners_of (mine key records)) =
        ap (λ (q : List UnitRecord × List String). q.1) e in
      let (unique, same) = added_all-set [] (owners_of (mine key records)) tt in
      (
        p,
        ap (λ (q : List UnitRecord × List String). q.0) e,
        subst IsUnique (sym ids) unique,
        λ o.
            subst (λ l. In o l ↔ In o (owners_of (mine key records))) (sym ids)
              (
                (λ m. elim ((same o).0 m) [ inl i ↦ absurd i | inr i ↦ i ]),
                λ m. (same o).1 (inr m),
              ),
      )
