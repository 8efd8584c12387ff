-- ===== src/Core/Ladder/Exposure.antt =====
-- What the validator of an exposure manifest accepts.
use levelup_bench.Prelude.{
  ◌≡◌, ◌↔◌, refl, String, Bool, true, false, List, [], ◌∷◌, In, inl, inr, arith, contains,
  contains_iff, not-In_of_contains, string_eq, IsUnique, ok, raise_if, ◌>>◌, Bool-cases,
}
use levelup_bench.Core.Faults.{Fault}
use levelup_bench.Core.Ladder.{ExposureManifest, overlap, check_manifest}
use levelup_bench.Core.Ladder.Order.{all_unique_iff}

abbrev pub Disjoint : List String → List String → Type 0
Disjoint xs ys = (a : String) → In a xs → ¬ In a ys

overlap_iff : (xs ys : List String) → (overlap xs ys ≡ false) ↔ Disjoint xs ys
unfolding overlap
overlap_iff [] ys = (λ h a m. absurd m, λ h. refl)
overlap_iff (x ∷ xs) ys = elim (Bool-cases (contains x ys)) [
  | inl shared ↦ (
    λ h. absurd (cc (let k : true ≡ false = rw shared at h in k)),
    λ h. absurd (h x (inl refl) ((contains_iff x ys).0 shared)),
  )
  | inr apart ↦ (
    λ h a. elim [
      | inl same ↦ rw same (not-In_of_contains x ys apart)
      | inr m ↦ (overlap_iff xs ys).0 (rw apart at h) a m
    ],
    λ h. rw apart ((overlap_iff xs ys).1 (λ a m. h a (inr m))),
  )
]

two_guards-eq-ok :
    {A : Type 0} (a b : Bool) (f g : Fault) (x y : A)
    → (raise_if a f >> raise_if b g >> ok x) ≡ ok y
    → (a ≡ false) × (b ≡ false)
two_guards-eq-ok true b f g x y p = cc
two_guards-eq-ok false true f g x y p = cc
two_guards-eq-ok false false f g x y p = (refl, refl)

-- The validator of `ExposureManifest` accepts exactly the manifests in which no training task is
-- held out and no exposed trajectory is listed twice.
pub check_manifest_iff :
    (m : ExposureManifest)
    → (check_manifest m ≡ ok m)
      ↔ (Disjoint m.train_task_ids m.held_out_task_ids × IsUnique m.exposed_trajectory_ids)
unfolding check_manifest
check_manifest_iff m = (
  λ h.
      let (a, b) = two_guards-eq-ok _ _ _ _ _ _ h in
      ((overlap_iff _ _).0 a, (all_unique_iff _).0 (ground arith)),
  λ w. rw ((overlap_iff _ _).1 w.0) (rw ((all_unique_iff _).1 w.1) refl),
)
