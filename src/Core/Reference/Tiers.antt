-- ===== src/Core/Reference/Tiers.antt =====
-- What the validator of a reference ladder accepts.
use levelup_bench.Prelude.{
  ℕ, ◌≤◌, ◌≡◌, ◌↔◌, refl, sym, ap, ◌∙◌, subst, Bool, true, false, List, [], ◌∷◌, map, In, inl, inr,
  arith, leb, IsUnique, string_eq, ok, raise_if, ◌>>◌, Bool-cases,
}
use levelup_bench.Core.Faults.{Fault}
use levelup_bench.Core.Trajectory.Indices.{same_numbers_iff}
use levelup_bench.Core.Ladder.Order.{all_unique_iff}
use levelup_bench.Core.Reference.{
  ReferenceEntry, ReferenceLadder, insert, sorted, ranks, check_reference_ladder,
}

-- No number is above a later one.
abbrev pub Ordered : List ℕ → Type 0
Ordered [] = Unit
Ordered (x ∷ xs) = ((y : ℕ) → In y xs → x ≤ y) × Ordered xs

pub In-insert : (x : ℕ) (xs : List ℕ) (y : ℕ) → In y (insert x xs) → In y (x ∷ xs)
unfolding insert
In-insert x [] y m = m
In-insert x (z ∷ zs) y m = elim (Bool-cases (leb x z)) [
  | inl le ↦ rw le at m
  | inr gt ↦ elim (let k : In y (z ∷ insert x zs) = rw gt at m in k) [
    | inl same ↦ inr (inl same)
    | inr later ↦ elim (In-insert x zs y later) [ inl same ↦ inl same | inr n ↦ inr (inr n) ]
  ]
]

insert-Ordered : (x : ℕ) (xs : List ℕ) → Ordered xs → Ordered (insert x xs)
unfolding insert
insert-Ordered x [] h = ((λ y m. absurd m), tt)
insert-Ordered x (z ∷ zs) h = elim (Bool-cases (leb x z)) [
  | inl le ↦
      let p : x ≤ z = ground arith in
      rw le ((λ y. elim [ inl same ↦ rw same p | inr m ↦ omega (arith, p, h.0 y m) ]), h)
  | inr gt ↦
      let p : z ≤ x = ground arith in
      rw gt (
        (λ y m. elim (In-insert x zs y m) [ inl same ↦ rw same p | inr n ↦ h.0 y n ]),
        insert-Ordered x zs h.1,
      )
]

sorted-Ordered : (xs : List ℕ) → Ordered (sorted xs)
unfolding sorted
sorted-Ordered [] = tt
sorted-Ordered (x ∷ xs) = insert-Ordered x (sorted xs) (sorted-Ordered xs)

insert_least : (x : ℕ) (xs : List ℕ) → ((y : ℕ) → In y xs → x ≤ y) → insert x xs ≡ x ∷ xs
unfolding insert
insert_least x [] h = refl
insert_least x (z ∷ zs) h =
    let le : leb x z ≡ true = (let p : x ≤ z = h z (inl refl) in ground arith) in rw le refl

sorted_self : (xs : List ℕ) → Ordered xs → sorted xs ≡ xs
unfolding sorted
sorted_self [] h = refl
sorted_self (x ∷ xs) h = ap (insert x) (sorted_self xs h.1) ∙ insert_least x xs h.0

two_guards :
    {A : Type 0} (a b : Bool) (f g : Fault) (x y : A)
    → (raise_if a f >> raise_if b g >> ok x) ≡ ok y
    → (a ≡ false) × (b ≡ false)
two_guards true b f g x y p = cc
two_guards false true f g x y p = cc
two_guards false false f g x y p = (refl, refl)

-- The validator of `ReferenceLadder` accepts exactly the ladders whose reference ids differ and in which
-- no entry has a higher tier than a later one.
pub check_reference_ladder_iff :
    (l : ReferenceLadder)
    → (check_reference_ladder l ≡ ok l) ↔ (
        IsUnique (map (λ (e : ReferenceEntry). e.reference_id) l.entries)
        × Ordered (ranks l.entries))
unfolding check_reference_ladder
check_reference_ladder_iff l = (
  λ h.
      let (a, b) = two_guards _ _ _ _ _ _ h in
      let same : ranks l.entries ≡ sorted (ranks l.entries) =
        (same_numbers_iff _ _).0 (ground arith) in
      (
        (all_unique_iff _).0 (ground arith),
        subst Ordered (sym same) (sorted-Ordered (ranks l.entries)),
      ),
  λ w. rw ((all_unique_iff _).1 w.0) (
      rw
        ((same_numbers_iff (ranks l.entries) (sorted (ranks l.entries))).1
          (sym (sorted_self (ranks l.entries) w.1)))
        refl),
)
