-- ===== src/MacroTrack/Oracle/Costs.antt =====
-- `_cost` of the actions of a path, and `optimum_value`.
use levelup_bench.Prelude.{
  ℕ, ◌+◌, ◌≤◌, ◌≡◌, refl, ap, String, List, [], ◌∷◌, ◌++◌, some, In, inl, inr, arith, Option-cases,
  ok, raise, ◌>>=◌, >>=-eq-ok, ok-injective,
}
use levelup_bench.Core.Numbers.{float}
use levelup_bench.MacroTrack.{ActionSpec, valid_specs, action_specs, find_spec}
use levelup_bench.MacroTrack.Oracle.{optimal_valid_actions, cost_of, optimum_value}
use levelup_bench.MacroTrack.Oracle.Routes.{Route, stay, go}
use levelup_bench.MacroTrack.Oracle.Optimum.{optimal_valid_actions-IsCheapest}

-- Each valid action is found by its name.
find_valid : (a : ActionSpec) → In a valid_specs → find_spec a.name action_specs ≡ some a
unfolding find_spec
find_valid a (inl e) = rw e refl
find_valid a (inr (inl e)) = rw e refl
find_valid a (inr (inr (inl e))) = rw e refl
find_valid a (inr (inr (inr (inl e)))) = rw e refl
find_valid a (inr (inr (inr (inr m)))) = absurd m

cost_of-append_one :
    (names : List String) (k : ℕ) (a : ActionSpec)
    → cost_of names ≡ ok k
    → find_spec a.name action_specs ≡ some a
    → cost_of (names ++ a.name ∷ []) ≡ ok (k + a.tick_cost)
unfolding cost_of
cost_of-append_one [] k a h found =
    rw (found, cost_of) (ap ok (let e : 0 ≡ k = ok-injective h in omega arith))
cost_of-append_one (name ∷ rest) k a h found = elim (Option-cases (find_spec name action_specs)) [
  | inl missing ↦ absurd (cc (let w : raise _ ≡ ok k = rw (missing, cost_of) at h in w))
  | inr (b, here) ↦
      let w : (cost_of rest >>= λ n. ok (b.tick_cost + n)) ≡ ok k = rw (here, cost_of) at h in
      let (n, costs, e) = >>=-eq-ok (cost_of rest) _ w in
      let sum : b.tick_cost + n ≡ k = ok-injective e in
      rw (here, cost_of-append_one rest n a costs found, cost_of) (ap ok (omega arith))
]

-- The names of a path cost what the path does.
pub cost_of-Route : {p k : ℕ} {names : List String} → Route p k names → cost_of names ≡ ok k
unfolding cost_of
cost_of-Route stay = refl
cost_of-Route (go {p} {k} {q} {c} {names} a m e f g rest) =
    rw (g, f) (cost_of-append_one names k a (cost_of-Route rest) (find_valid a m))

-- `optimum_value` raises at no distance, and returns the least cost of valid actions that progress by exactly the distance.
pub optimum_value-IsLeast :
    (distance : ℕ)
    → (best : ℕ) × (names : List String) × (optimum_value distance ≡ ok (float best))
      × (optimal_valid_actions distance ≡ ok names)
      × Route distance best names
      × ((k : ℕ) (others : List String) → Route distance k others → best ≤ k)
unfolding optimum_value
optimum_value-IsLeast distance =
    let (plan, found, cheapest) = optimal_valid_actions-IsCheapest distance in
    let costs : cost_of plan.actions ≡ ok plan.cost = cost_of-Route cheapest.reaches in
    (plan.cost, plan.actions, rw (found, costs) refl, found, cheapest.reaches, cheapest.least)
