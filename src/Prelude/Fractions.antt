-- ===== src/Prelude/Fractions.antt =====
-- `Fraction` of Python, for fractions that are not negative, and the differences of two.
use Prim.Native.Nat.{ℕ, suc, ◌+◌, ◌*◌, ◌≤◌, ◌<◌}
use mathlib.Core.Path.{◌≡◌}
use mathlib.Core.Logic.{inl, inr}
use mathlib.Core.Bool.{Bool, true, false}
use native.Mathlib.Nat.{mul-lt-mul_of_pos_right, mul-le-mul_right}
use native.Mathlib.Omega.{arith}
use levelup_bench.Prelude.Tests.{ltb, eqb, ltb→lt, Bool-cases}
use levelup_bench.Prelude.Int.{ℤ, sub_ℕ}
use levelup_bench.Prelude.Orders.{IsOrder}

-- A numerator over a denominator, which is one more than the second field.
pub record Fraction : Type 0 where
  pub numerator : ℕ
  pub denominator_less_one : ℕ

abbrev pub denominator : Fraction → ℕ
denominator p = suc p.denominator_less_one

-- `Fraction(n)`
abbrev pub whole : ℕ → Fraction
whole n = record { numerator = n; denominator_less_one = 0 }

-- `Fraction(n, d)`, for d one more than the second argument.
abbrev pub over : ℕ → ℕ → Fraction
over n d = record { numerator = n; denominator_less_one = d }

-- `p < q`
unfoldable pub less_fraction : Fraction → Fraction → Bool
less_fraction p q = ltb (p.numerator * denominator q) (q.numerator * denominator p)

-- `p == q`
unfoldable pub same_fraction : Fraction → Fraction → Bool
same_fraction p q = eqb (p.numerator * denominator q) (q.numerator * denominator p)

-- `p + q`
unfoldable pub add_fraction : Fraction → Fraction → Fraction
add_fraction p q = record {
  numerator = p.numerator * denominator q + q.numerator * denominator p;
  denominator_less_one = p.denominator_less_one * denominator q + q.denominator_less_one;
}

-- `p / n`, for n one more than the second argument.
unfoldable pub divide_fraction : Fraction → ℕ → Fraction
divide_fraction p n = record {
  numerator = p.numerator;
  denominator_less_one = p.denominator_less_one * suc n + n;
}

-- `p - q`, which may be negative.
pub record Difference : Type 0 where
  pub numerator : ℤ
  pub denominator_less_one : ℕ

unfoldable pub sub_fraction : Fraction → Fraction → Difference
sub_fraction p q = record {
  numerator = sub_ℕ (p.numerator * denominator q) (q.numerator * denominator p);
  denominator_less_one = p.denominator_less_one * denominator q + q.denominator_less_one;
}

pub less_fraction-asym : (p q : Fraction) → less_fraction p q ≡ true → less_fraction q p ≡ false
unfolding less_fraction
less_fraction-asym p q h = ground arith

scale_less : (a b k : ℕ) → a < b → a * suc k < b * suc k
scale_less a b k h = mul-lt-mul_of_pos_right h (omega arith)

scale_le : (a b k : ℕ) → a ≤ b → a * k ≤ b * k
scale_le a b k h = mul-le-mul_right k h

pub less_fraction-IsOrder : IsOrder less_fraction
unfolding less_fraction
less_fraction-IsOrder = record {
  asym = less_fraction-asym;
  cotrans = λ p q r h. elim (Bool-cases (less_fraction p r)) [
    | inl less ↦ inl less
    | inr above ↦ elim (Bool-cases (less_fraction r q)) [
      | inl less ↦ inr less
      | inr below ↦
          let a = p.numerator in
          let b = denominator p in
          let c = q.numerator in
          let d = denominator q in
          let e = r.numerator in
          let f = denominator r in
          let one : a * d * f < c * b * f =
            scale_less (a * d) (c * b) r.denominator_less_one (ltb→lt _ _ h) in
          let two : e * b * d ≤ a * f * d = scale_le (e * b) (a * f) d (ground arith) in
          let three : c * f * b ≤ e * d * b = scale_le (c * f) (e * d) b (ground arith) in
          absurd (omega (arith, one, two, three))
    ]
  ];
}
