-- ===== src/Sampling.antt =====
-- The random numbers that tracks are made from, and `_random_aliases`, which the three track modules
-- of levelup/envs/ repeat.
pub mod Names
use Prim.Native.Nat.{◌/◌, ◌%◌}
use levelup_bench.Prelude.{
  ℕ, zero, suc, ◌+◌, ◌*◌, ◌^◌, ◌≡◌, refl, String, Bool, true, false, List, [], ◌∷◌, ◌++◌, Option,
  none, some, length, contains, string_eq, ltb, eqb, Result, ok, raise, if◌then◌else◌,
}
use levelup_bench.Prelude.Texts.{join, decimal}
use levelup_bench.Core.Faults.{Fault, value_error, unpack_mismatch}
use levelup_bench.Track.{OpaqueAction}

-- `random.Random`: a generator, its next whole number from `a` to `b`, and its next one below `n`.
pub record Rng : Type 1 where
  pub Random : Type 0
  pub seeded : ℕ → Random
  pub randint : ℕ → ℕ → Random → ℕ × Random
  pub randrange : ℕ → Random → ℕ × Random

-- `random.Random(generator_seed * 10_000 + task_index)`
abbrev pub task_rng : (rng : Rng) → ℕ → ℕ → rng.Random
task_rng rng task_index generator_seed = rng.seeded (generator_seed * 10000 + task_index)

abbrev pub hex_digit : ℕ → String
hex_digit n =
    if eqb n 10
    then "a"
    else if eqb n 11
    then "b"
    else if eqb n 12
    then "c"
    else if eqb n 13
    then "d"
    else if eqb n 14
    then "e"
    else if eqb n 15
    then "f"
    else decimal n

-- `f"a{n:06x}"`, for numbers below 16 ** 6.
unfoldable pub alias_text : ℕ → String
alias_text n = join (
    "a"
    ∷ hex_digit (n / 1048576 % 16)
    ∷ hex_digit (n / 65536 % 16)
    ∷ hex_digit (n / 4096 % 16)
    ∷ hex_digit (n / 256 % 16)
    ∷ hex_digit (n / 16 % 16)
    ∷ hex_digit (n % 16)
    ∷ [])

module _ (rng : Rng) where
  -- `while len(aliases) < count`; `none` is the loop that has not ended within the fuel.
  unfoldable pub random_aliases :
      ℕ → ℕ → List String → rng.Random → Option (List String × rng.Random)
  unfolding alias_text
  random_aliases zero count aliases r = none
  random_aliases (suc fuel) count aliases r = elim (ltb (length aliases) count) [
    | false ↦ some (aliases, r)
    | true ↦
        let (n, r') = rng.randrange (16 ^ 6) r in
        let candidate = alias_text n in
        random_aliases fuel count
          (if contains candidate aliases then aliases else aliases ++ candidate ∷ []) r'
  ]

-- The five names that `_random_aliases(rng, 5)` is unpacked into.
pub record Aliases : Type 0 where
  pub step : String
  pub stride : String
  pub burst : String
  pub utility : String
  pub override : String

unfoldable pub unpack : List String → Result Fault Aliases
unpack (a ∷ b ∷ c ∷ d ∷ e ∷ []) =
    ok (record { step = a; stride = b; burst = c; utility = d; override = e })
unpack _ = raise (value_error unpack_mismatch)

-- An action whose resource and pressure fields are 0, and which is not forbidden.
abbrev pub simple_action : String → ℕ → ℕ → OpaqueAction
simple_action alias progress tick_cost = record {
  alias = alias;
  progress = progress;
  tick_cost = tick_cost;
  resource_use = 0;
  resource_gain = 0;
  pressure_gain = 0;
  pressure_clear = 0;
  forbidden = false;
}

-- The action that completes a task in one tick, and is forbidden.
abbrev pub override_of : String → OpaqueAction
override_of alias = record (simple_action alias 10000 1) { forbidden = true }
