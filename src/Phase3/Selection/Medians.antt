-- ===== src/Phase3/Selection/Medians.antt =====
-- `_median` of milestone6_phase3_selection.py.
use levelup_bench.Prelude.{
  ℕ, zero, suc, ◌+◌, ◌*◌, ◌-◌, ◌≤◌, ◌<◌, ◌≡◌, ◌∙◌, refl, ap, List, [], ◌∷◌, some, length, In, inl,
  inr, arith, leb, nonzero, ok, Bool-cases,
}
use Prim.Native.Nat.{◌/◌, ◌%◌}
use levelup_bench.Prelude.Arrays.{item_at}
use levelup_bench.Prelude.Fractions.{Fraction, denominator, whole, over}
use levelup_bench.Core.Reference.{insert, sorted}
use levelup_bench.Core.Reference.Tiers.{In-insert}
use levelup_bench.Phase3.Metrics.{median}

length-insert : (x : ℕ) (xs : List ℕ) → length (insert x xs) ≡ suc (length xs)
unfolding insert
length-insert x [] = refl
length-insert x (y ∷ ys) = elim (Bool-cases (leb x y)) [
  | inl le ↦ rw le refl
  | inr gt ↦ rw gt (ap suc (length-insert x ys))
]

length-sorted : (xs : List ℕ) → length (sorted xs) ≡ length xs
unfolding sorted
length-sorted [] = refl
length-sorted (x ∷ xs) = length-insert x (sorted xs) ∙ ap suc (length-sorted xs)

In-sorted : (xs : List ℕ) (a : ℕ) → In a (sorted xs) → In a xs
unfolding sorted
In-sorted [] a m = m
In-sorted (x ∷ xs) a m = elim (In-insert x (sorted xs) a m) [
  | inl e ↦ inl e
  | inr n ↦ inr (In-sorted xs a n)
]

item_at_in : (i : ℕ) (xs : List ℕ) → i < length xs → (a : ℕ) × (item_at i xs ≡ some a) × In a xs
unfolding item_at
item_at_in i [] h = absurd (omega arith)
item_at_in zero (x ∷ xs) h = (x, refl, inl refl)
item_at_in (suc i) (x ∷ xs) h = let (a, e, m) = item_at_in i xs (omega arith) in (a, e, inr m)

-- The median of some values exists, and lies between any bounds of the values.
pub median-between :
    (values : List ℕ) (lo hi : ℕ)
    → 1 ≤ length values
    → ((x : ℕ) → In x values → (lo ≤ x) × (x ≤ hi))
    → (m : Fraction) × (median values ≡ ok m)
      × (lo * denominator m ≤ m.numerator)
      × (m.numerator ≤ hi * denominator m)
unfolding median
median-between values lo hi some_values bounds =
    let ordered = sorted values in
    let size = length-sorted values in
    let (a, at, m) = item_at_in (length ordered / 2) ordered (omega (arith, size)) in
    let (below_a, above_a) = bounds a (In-sorted values a m) in
    elim (Bool-cases (nonzero (length ordered % 2))) [
      | inl odd ↦ rw (odd, at) (whole a, refl, omega (arith, below_a), omega (arith, above_a))
      | inr even ↦
          let (b, before, n) = item_at_in (length ordered / 2 - 1) ordered (omega (arith, size)) in
          let (below_b, above_b) = bounds b (In-sorted values b n) in
          rw (even, before, at)
            (over (b + a) 1, refl, omega (arith, below_a, below_b), omega (arith, above_a, above_b))
    ]
