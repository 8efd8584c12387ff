-- ===== src/Prelude/Arrays.antt =====
-- Lists that are read and written by index, as the cells of a preallocated list are.
use Prim.Native.Nat.{ℕ, zero, suc, ◌<◌}
use mathlib.Core.Path.{◌≡◌, refl, ap}
use mathlib.Core.Logic.{◌≢◌}
use mathlib.Core.List.{List, [], ◌∷◌}
use mathlib.Core.Option.{Option, none, some}
use native.Mathlib.Omega.{arith}
use levelup_bench.Prelude.Lists.{length}

module _ {A : Type 0} where
  -- `[x] * n`
  unfoldable pub replicate : ℕ → A → List A
  replicate zero x = []
  replicate (suc n) x = x ∷ replicate n x

  unfoldable pub item_at : ℕ → List A → Option A
  item_at i [] = none
  item_at zero (x ∷ xs) = some x
  item_at (suc i) (x ∷ xs) = item_at i xs

  -- `xs[i] = v`, for an index in range.
  unfoldable pub write_at : ℕ → A → List A → List A
  write_at i v [] = []
  write_at zero v (x ∷ xs) = v ∷ xs
  write_at (suc i) v (x ∷ xs) = x ∷ write_at i v xs

  pub length-write_at : (i : ℕ) (v : A) (xs : List A) → length (write_at i v xs) ≡ length xs
  unfolding write_at
  length-write_at i v [] = refl
  length-write_at zero v (x ∷ xs) = refl
  length-write_at (suc i) v (x ∷ xs) = ap suc (length-write_at i v xs)

  pub item_at-write_at_self :
      (i : ℕ) (v : A) (xs : List A) → i < length xs → item_at i (write_at i v xs) ≡ some v
  unfolding item_at write_at
  item_at-write_at_self i v [] h = absurd (omega arith)
  item_at-write_at_self zero v (x ∷ xs) h = refl
  item_at-write_at_self (suc i) v (x ∷ xs) h = item_at-write_at_self i v xs (omega arith)

  pub item_at-write_at_ne :
      (i j : ℕ) (v : A) (xs : List A) → j ≢ i → item_at j (write_at i v xs) ≡ item_at j xs
  unfolding item_at write_at
  item_at-write_at_ne i j v [] h = refl
  item_at-write_at_ne zero zero v (x ∷ xs) h = absurd (h refl)
  item_at-write_at_ne zero (suc j) v (x ∷ xs) h = refl
  item_at-write_at_ne (suc i) zero v (x ∷ xs) h = refl
  item_at-write_at_ne (suc i) (suc j) v (x ∷ xs) h =
      item_at-write_at_ne i j v xs (λ e. h (ap suc e))

  pub length-replicate : (n : ℕ) (x : A) → length (replicate n x) ≡ n
  unfolding replicate
  length-replicate zero x = refl
  length-replicate (suc n) x = ap suc (length-replicate n x)
