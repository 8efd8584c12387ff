-- ===== src/MacroTrack/Oracle/Routes.antt =====
-- What it is for valid actions to make exactly so much progress, at what cost.
use levelup_bench.Prelude.{ℕ, ◌+◌, ◌≤◌, ◌≡◌, String, List, [], ◌∷◌, ◌++◌, Option, none, some, In}
use levelup_bench.MacroTrack.{ActionSpec, valid_specs}
use levelup_bench.MacroTrack.Oracle.{Plan}

-- Valid actions with these names progress so far, in so many ticks.
pub data Route : ℕ → ℕ → List String → Type 0 where
  stay : Route 0 0 []
  go :
      {p k q c : ℕ} {names longer : List String} (a : ActionSpec)
      → In a valid_specs
      → q ≡ p + a.progress
      → c ≡ k + a.tick_cost
      → longer ≡ names ++ a.name ∷ []
      → Route p k names
      → Route q c longer

-- The plan is a path, if there is one.
abbrev pub IsRoute : ℕ → Option Plan → Type 0
IsRoute position none = Unit
IsRoute position (some plan) = Route position plan.cost plan.actions

-- There is a plan, and it costs no more.
abbrev pub AtMost : Option Plan → ℕ → Type 0
AtMost none k = ⊥
AtMost (some plan) k = plan.cost ≤ k

-- The plan is a path, and no path to the position costs less.
pub record IsCheapest (position : ℕ) (plan : Plan) : Type 0 where
  pub reaches : Route position plan.cost plan.actions
  pub least : (k : ℕ) (names : List String) → Route position k names → plan.cost ≤ k

-- There is a cheapest plan in the cell.
abbrev pub Holds : ℕ → Option Plan → Type 0
Holds position none = ⊥
Holds position (some plan) = IsCheapest position plan
