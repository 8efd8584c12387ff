-- ===== src/Prelude/Ranges.antt =====
-- Lists that hold every number up to a bound, and every combination of the elements of two lists.
use Prim.Native.Nat.{ℕ, zero, suc, ◌≤◌}
use mathlib.Core.List.{List, [], ◌∷◌, ◌++◌}
use mathlib.Core.Logic.{◌⊎◌, inl, inr}
use mathlib.Core.Path.{◌≡◌, ap}
use native.Mathlib.Omega.{arith}
use levelup_bench.Prelude.Lists.{In, In-append_left, In-append_right}

le_cases : (k n : ℕ) → k ≤ suc n → (k ≡ suc n) ⊎ (k ≤ n)
le_cases k n h = grind arith

-- The numbers 0 to `n`.
unfoldable pub upto : ℕ → List ℕ
upto zero = zero ∷ []
upto (suc n) = suc n ∷ upto n

pub In-upto : (n k : ℕ) → k ≤ n → In k (upto n)
unfolding upto
In-upto zero k h = inl (omega arith)
In-upto (suc n) k h = elim (le_cases k n h) [
  | inl top ↦ inl top
  | inr below ↦ inr (In-upto n k below)
]

-- `[f(x, y) for x in xs for y in ys]`
module _ {A B C : Type 0} (f : A → B → C) where
  row : A → List B → List C
  row x [] = []
  row x (y ∷ ys) = f x y ∷ row x ys

  In-row : (x : A) (ys : List B) (y : B) → In y ys → In (f x y) (row x ys)
  unfolding row
  In-row x [] y m = absurd m
  In-row x (z ∷ ys) y (inl same) = inl (ap (f x) same)
  In-row x (z ∷ ys) y (inr m) = inr (In-row x ys y m)

  unfoldable pub pairs : List A → List B → List C
  unfolding row
  pairs [] ys = []
  pairs (x ∷ xs) ys = row x ys ++ pairs xs ys

  pub In-pairs :
      (xs : List A) (ys : List B) (x : A) (y : B) → In x xs → In y ys → In (f x y) (pairs xs ys)
  unfolding pairs
  In-pairs [] ys x y m n = absurd m
  In-pairs (z ∷ xs) ys x y (inl same) n =
      In-append_left (row z ys) (pairs xs ys) (f x y) (rw same (In-row z ys y n))
  In-pairs (z ∷ xs) ys x y (inr m) n =
      In-append_right (row z ys) (pairs xs ys) (f x y) (In-pairs xs ys x y m n)
