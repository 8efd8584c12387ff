-- ===== src/MacroTrack/Oracle.antt =====
-- `_optimal_valid_actions`, `_cost` and `optimum_value` of levelup/envs/macrotrack.py.
pub mod Routes
pub mod Tables
pub mod Optimum
pub mod Costs
use levelup_bench.Prelude.{
  ℕ, zero, suc, ◌+◌, ◌-◌, String, Bool, true, false, List, [], ◌∷◌, ◌++◌, Option, none, some, ltb,
  Result, ok, raise, ◌>>=◌, if◌then◌else◌,
}
use levelup_bench.Prelude.Arrays.{replicate, item_at, write_at}
use levelup_bench.Core.Faults.{Fault, key_error, assertion_error}
use levelup_bench.Core.Numbers.{Float, float}
use levelup_bench.MacroTrack.{ActionSpec, valid_specs, action_specs, find_spec}

-- A cell of `best`: the cost and the actions.
pub record Plan : Type 0 where
  pub cost : ℕ
  pub actions : List String

abbrev pub empty_plan : Plan
empty_plan = record { cost = 0; actions = [] }

-- `best[position]`; the positions that the oracle reads are in range.
abbrev pub cell : List (Option Plan) → ℕ → Option Plan
cell best position = elim (item_at position best) [ none ↦ none | some c ↦ c ]

-- `candidate`
abbrev pub extend_plan : Plan → ActionSpec → Plan
extend_plan previous a = record {
  cost = previous.cost + a.tick_cost;
  actions = previous.actions ++ a.name ∷ [];
}

-- `winner` after a candidate.
abbrev pub better_plan : Option Plan → Plan → Plan
better_plan none candidate = candidate
better_plan (some winner) candidate = if ltb candidate.cost winner.cost then candidate else winner

-- The body of the inner loop.
unfoldable pub try_action : List (Option Plan) → ℕ → Option Plan → ActionSpec → Option Plan
try_action best position winner a =
    if ltb position a.progress then winner else elim (cell best (position - a.progress)) [
      | none ↦ winner
      | some previous ↦ some (better_plan winner (extend_plan previous a))
    ]

-- The inner loop.
unfoldable pub try_actions : List (Option Plan) → ℕ → Option Plan → List ActionSpec → Option Plan
try_actions best position winner [] = winner
try_actions best position winner (a ∷ rest) =
    try_actions best position (try_action best position winner a) rest

-- The outer loop: so many rounds, the first of them for `position`.
unfoldable pub fill_table : ℕ → ℕ → List (Option Plan) → List (Option Plan)
fill_table zero position best = best
fill_table (suc rounds) position best =
    fill_table rounds (suc position)
      (write_at position (try_actions best position none valid_specs) best)

-- `best` before the outer loop.
abbrev pub first_table : ℕ → List (Option Plan)
first_table distance = write_at 0 (some empty_plan) (replicate (suc distance) none)

-- `_optimal_valid_actions`
unfoldable pub optimal_valid_actions : ℕ → Result Fault (List String)
optimal_valid_actions distance =
    elim (cell (fill_table distance 1 (first_table distance)) distance) [
      | none ↦ raise assertion_error
      | some plan ↦ ok plan.actions
    ]

-- `_cost`
unfoldable pub cost_of : List String → Result Fault ℕ
cost_of [] = ok 0
cost_of (name ∷ rest) =
    let others = cost_of rest in
    elim (find_spec name action_specs) [
      | none ↦ raise key_error
      | some a ↦ others >>= λ n. ok (a.tick_cost + n)
    ]

unfoldable pub optimum_value : ℕ → Result Fault Float
optimum_value distance = do
  actions ← optimal_valid_actions distance
  n ← cost_of actions
  ok (float n)
