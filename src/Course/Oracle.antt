-- ===== src/Course/Oracle.antt =====
-- `_search_path`, `optimal_path` and `frontier_path` of adaptive_track.py and challenge_track.py,
-- which are the same but for the perceived cost.
pub mod Edges
pub mod Replay
pub mod Optimum
use levelup_bench.Prelude.{
  ℕ, ◌+◌, ◌*◌, ◌≡◌, ◌≢◌, sym, subst, ap, refl, String, Bool, true, false, collect, not, ◌&&◌, ◌||◌,
  List, [], ◌∷◌, ◌++◌, Option, none, some, string_eq, arith, In, inl, inr, Result, ok, raise,
  if◌then◌else◌, Option-cases, Bool-cases, ltb, leb, eqb, nonzero,
}
use levelup_bench.Core.Faults.{Fault, key_error, runtime_error}
use levelup_bench.Search
use levelup_bench.Search.{Outcome, found, no_completion, out_of_fuel}
use levelup_bench.Search.Walks.{Edge}
use levelup_bench.Track.{OpaqueAction, find_action, valid_actions}
use levelup_bench.Course.{Course}

-- `candidate_cost`
unfoldable pub price : Course → Bool → OpaqueAction → ℕ → ℕ
price c penalize_complexity a tick_cost =
    if penalize_complexity then c.penalized a tick_cost else tick_cost

-- What the body of the inner loop makes of an action; `none` is a `continue`.
unfoldable pub edge_of : (c : Course) → Bool → c.State → OpaqueAction → Option (Edge c.State)
edge_of c penalize s a = elim (c.move s a) [
  | none ↦ none
  | some (s', tick_cost) ↦
      if ltb 0 a.progress && eqb (c.progress s') (c.progress s)
      then none
      else some (record { alias = a.alias; next = s'; cost = price c penalize a tick_cost })
]

-- The aliases differ, so `_action_map[alias]` is the action that the alias was read from.
unfoldable pub edges : (c : Course) → Bool → c.State → List (Edge c.State)
unfolding edge_of
edges c penalize s = collect (edge_of c penalize s) (valid_actions c.actions)

unfoldable pub is_goal : (c : Course) → c.State → Bool
is_goal c s = eqb (c.progress s) c.target

-- `sum(environment._action_map[name].tick_cost for name in path)`, or a KeyError.
unfoldable pub true_cost : List OpaqueAction → List String → Option ℕ
true_cost actions [] = some 0
true_cost actions (name ∷ rest) =
    let others = true_cost actions rest in
    elim (find_action name actions) [
      | none ↦ none
      | some a ↦ elim others [ none ↦ none | some n ↦ some (a.tick_cost + n) ]
    ]

-- `none` is the loop that has not ended within the fuel.
unfoldable pub conclude : Course → Outcome → Option (Result Fault (ℕ × List String))
conclude c (found cost path) = elim (true_cost c.actions path) [
  | none ↦ some (raise key_error)
  | some n ↦ some (ok (n, path))
]
conclude c no_completion = some (raise runtime_error)
conclude c Search.key_error = some (raise key_error)
conclude c out_of_fuel = none

unfoldable pub search_path : ℕ → Course → Bool → Option (Result Fault (ℕ × List String))
search_path fuel c penalize_complexity = conclude c (
    Search.search_path ⦃e = c.same_state⦄ (edges c penalize_complexity) (is_goal c) fuel
      c.start_state)

abbrev pub optimal_path : ℕ → Course → Option (Result Fault (ℕ × List String))
optimal_path fuel c = search_path fuel c false

abbrev pub frontier_path : ℕ → Course → Option (Result Fault (ℕ × List String))
frontier_path fuel c = search_path fuel c true
