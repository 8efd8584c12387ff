-- ===== src/Search.antt =====
-- The uniform-cost search that `_search_path` runs over a track's states
-- (levelup/envs/mechanictrack.py, adaptive_track.py and challenge_track.py hold the same loop),
-- for any states, with the edges out of a state and the goal test as parameters.
pub mod Best
pub mod Rounds
pub mod Invariant
pub mod Sentinel
pub mod Sound
pub mod Optimal
pub mod Fuel
pub mod Heap
pub mod Walks
use levelup_bench.Prelude.{
  ℕ, zero, suc, ◌+◌, ◌*◌, ◌^◌, String, Bool, true, false, List, [], ◌∷◌, ◌++◌, Eq, ltb, eqb, Option,
  none, some, if◌then◌else◌,
}
use Best.{lookup, cost_or}
use Heap.{Entry, heappop}
use Walks.{Edge}

-- `best.get(next_state, 10**18)`
abbrev pub unreached : ℕ
unreached = 10 ^ 18

pub record Frontier (S : Type 0) : Type 0 where
  pub queue : List (Entry S)
  pub best : List (S × ℕ)
  pub counter : ℕ

pub data Outcome : Type 0 where
  -- The perceived cost and the path of the first goal state that leaves the heap.
  found : ℕ → List String → Outcome
  -- RuntimeError: the heap is empty.
  no_completion : Outcome
  -- KeyError at `best[state]`.
  key_error : Outcome
  out_of_fuel : Outcome

pub data Round (S : Type 0) : Type 0 where
  finish : Outcome → Round S
  again : Frontier S → Round S

module _ {S : Type 0} ⦃e : Eq S⦄ where
  -- The test and the updates under it, for one edge out of a state of the given cost and path.
  unfoldable pub relax : ℕ → List String → Frontier S → Edge S → Frontier S
  relax cost path f x =
      let next_cost = cost + x.cost in
      if ltb next_cost (cost_or unreached x.next f.best)
      then record {
        queue =
            record {
              cost = next_cost;
              counter = f.counter + 1;
              state = x.next;
              path = path ++ x.alias ∷ [];
            }
            ∷ f.queue;
        best = (x.next, next_cost) ∷ f.best;
        counter = f.counter + 1;
      }
      else f

  unfoldable pub relax_all : ℕ → List String → Frontier S → List (Edge S) → Frontier S
  relax_all cost path f [] = f
  relax_all cost path f (x ∷ xs) = relax_all cost path (relax cost path f x) xs

module _ {S : Type 0} where
  abbrev pub initial : S → Frontier S
  initial start = record {
    queue = record { cost = 0; counter = 0; state = start; path = [] } ∷ [];
    best = (start, 0) ∷ [];
    counter = 0;
  }

module _ {S : Type 0} ⦃e : Eq S⦄ (edges : S → List (Edge S)) (is_goal : S → Bool) where
  -- One round of the loop, after `entry` left the heap.
  unfoldable pub visit : Entry S → Frontier S → Round S
  visit entry f = elim (lookup entry.state f.best) [
    | none ↦ finish key_error
    | some known ↦
        if eqb entry.cost known
        then if is_goal entry.state
          then finish (found entry.cost entry.path)
          else again (relax_all entry.cost entry.path f (edges entry.state))
        else again f
  ]

  unfoldable pub round : Frontier S → Round S
  round f = elim (heappop f.queue) [
    | none ↦ finish no_completion
    | some (entry, rest) ↦ visit entry (record f { queue = rest })
  ]

  -- `while queue`
  unfoldable pub loop : ℕ → Frontier S → Outcome
  loop zero f = out_of_fuel
  loop (suc fuel) f = elim (round f) [ finish o ↦ o | again f' ↦ loop fuel f' ]

  unfoldable pub search_path : ℕ → S → Outcome
  search_path fuel start = loop fuel (initial start)
