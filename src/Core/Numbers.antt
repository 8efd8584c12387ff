-- ===== src/Core/Numbers.antt =====
-- Finite floats. Every finite double is a whole multiple of 2 ** -1074, so it is modelled by that
-- multiple; equality and order are then those of the whole numbers.
use levelup_bench.Prelude.{ℕ, ◌*◌, ◌^◌, Bool}
use levelup_bench.Prelude.Int.{ℤ, pos, ltb_ℤ, int_eq}

pub record Float : Type 0 where
  pub multiple : ℤ

-- The multiple that stands for 1.0.
abbrev pub one : ℕ
one = 2 ^ 1074

-- `float(n)`, for whole numbers that a double holds exactly (below 2 ** 53, as every tick count is).
unfoldable pub float : ℕ → Float
float n = record { multiple = pos (n * one) }

abbrev pub less : Float → Float → Bool
less x y = ltb_ℤ x.multiple y.multiple
