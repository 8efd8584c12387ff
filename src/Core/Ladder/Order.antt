-- ===== src/Core/Ladder/Order.antt =====
-- What the validator of an improvement ladder accepts, and what `stage` finds.
use levelup_bench.Prelude.{
  ◌≡◌, ◌↔◌, refl, sym, subst, String, Bool, true, false, not, List, [], ◌∷◌, map, length, select,
  In, In-select, In-select_of, inl, inr, arith, IsUnique, IsUnique-of_length, length_of_IsUnique,
  string_eq, ◌==◌, ==→≡, ==_refl, ok, raise_if, ◌>>◌,
}
use levelup_bench.Core.Faults.{Fault}
use levelup_bench.Core.Task.{Direction, all_unique}
use levelup_bench.Core.Trajectory.{range_from}
use levelup_bench.Core.Ladder.{
  ImprovementStage, ImprovementLadder, improves, is_empty, check_ladder, only, stage,
}

pub all_unique_iff : (ids : List String) → (all_unique ids ≡ true) ↔ IsUnique ids
unfolding all_unique
all_unique_iff ids =
    (λ h. IsUnique-of_length ids (ground arith), λ u. ground (arith, length_of_IsUnique ids u))

-- Every stage is strictly better than each one before it.
abbrev pub Ascends : Direction → List ImprovementStage → Type 0
Ascends d [] = Unit
Ascends d (s ∷ rest) = ((t : ImprovementStage) → In t rest → improves d s t ≡ true) × Ascends d rest

pub not-false : (b : Bool) → not b ≡ false → b ≡ true
not-false b h = ground arith

only-eq-ok : (xs : List ImprovementStage) (s : ImprovementStage) → only xs ≡ ok s → xs ≡ s ∷ []
only-eq-ok [] s h = cc
only-eq-ok (x ∷ []) s h = cc
only-eq-ok (x ∷ y ∷ rest) s h = cc

-- A ladder that the validator accepts.
pub record IsLadder (l : ImprovementLadder) : Type 0 where
  pub inhabited : is_empty l.stages ≡ false
  pub numbered : map (λ (s : ImprovementStage). s.ordinal) l.stages ≡ range_from 0 (length l.stages)
  pub distinct : IsUnique (map (λ (s : ImprovementStage). s.stage_id) l.stages)
  pub own_trajectories : IsUnique (map (λ (s : ImprovementStage). s.trajectory_id) l.stages)
  pub ascends : Ascends l.direction l.stages

-- The validator changes no field.
pub check_ladder-same : (l l' : ImprovementLadder) → check_ladder l ≡ ok l' → l ≡ l'
unfolding check_ladder
check_ladder-same l l' h = five_guards-same _ _ _ _ _ _ _ _ _ _ l l' h
  where
    five_guards-same :
        (a b c d e : Bool) (f g h i j : Fault) (x y : ImprovementLadder)
        → (raise_if a f >> raise_if b g >> raise_if c h >> raise_if d i >> raise_if e j >> ok x)
          ≡ ok y
        → x ≡ y
    five_guards-same true b c d e f g h i j x y p = cc
    five_guards-same false true c d e f g h i j x y p = cc
    five_guards-same false false true d e f g h i j x y p = cc
    five_guards-same false false false true e f g h i j x y p = cc
    five_guards-same false false false false true f g h i j x y p = cc
    five_guards-same false false false false false f g h i j x y p = cc

-- `stage` returns the one stage of the label: it stands in the ladder, has the label, and every
-- stage of the ladder with that label is the same.
pub stage-eq-ok :
    (l : ImprovementLadder) (label : String) (s : ImprovementStage)
    → stage l label ≡ ok s
    → In s l.stages
      × (s.label ≡ label)
      × ((t : ImprovementStage) → In t l.stages → t.label ≡ label → t ≡ s)
unfolding stage
stage-eq-ok l label s h =
    let single = only-eq-ok (select (λ (t : ImprovementStage). t.label == label) l.stages) s h in
    let (m, named) =
      In-select (λ (t : ImprovementStage). t.label == label) l.stages s
        (subst (In s) (sym single) (inl refl)) in
    (
      m,
      ==→≡ named,
      λ t n q.
          elim (subst (In t) single (
            In-select_of (λ (t : ImprovementStage). t.label == label) l.stages t n
              (rw q (==_refl label)))) [ inl same ↦ same | inr none_left ↦ absurd none_left ],
    )
