-- ===== src/Prelude/Texts.antt =====
-- The texts that f-strings build: joined pieces, and whole numbers in decimal.
use Prim.Native.Nat.{ℕ, zero, suc, ◌/◌, ◌%◌}
use Prim.Native.String.{String, ◌++◌}
use mathlib.Core.List.{List, [], ◌∷◌}
use mathlib.Core.Path.{◌≡◌, refl}
use levelup_bench.Prelude.Tests.{ltb, if◌then◌else◌}

unfoldable pub join : List String → String
join [] = ""
join (s ∷ rest) = s ++ join rest

digit : ℕ → String
digit zero = "0"
digit (suc zero) = "1"
digit (suc (suc zero)) = "2"
digit (suc (suc (suc zero))) = "3"
digit (suc (suc (suc (suc zero)))) = "4"
digit (suc (suc (suc (suc (suc zero))))) = "5"
digit (suc (suc (suc (suc (suc (suc zero)))))) = "6"
digit (suc (suc (suc (suc (suc (suc (suc zero))))))) = "7"
digit (suc (suc (suc (suc (suc (suc (suc (suc zero)))))))) = "8"
digit _ = "9"

-- The digits of `n` in front of `rest`. A number has no more digits than its own value, and one.
digits : ℕ → ℕ → String → String
unfolding digit
digits zero n rest = rest
digits (suc fuel) n rest =
    let more = digits fuel (n / 10) (digit (n % 10) ++ rest) in
    if ltb n 10 then digit n ++ rest else more

-- `f"{n}"`
unfoldable pub decimal : ℕ → String
unfolding digits
decimal n = digits (suc n) n ""

decimal_test : decimal 1204 ≡ "1204"
unfolding decimal
decimal_test = refl

join_test : join ("d" ∷ decimal 12 ∷ ".v1" ∷ []) ≡ "d12.v1"
unfolding join decimal
join_test = refl
