-- ===== src/MacroTrack/Oracle/Optimum.antt =====
-- `_optimal_valid_actions` finds a cheapest path.
use levelup_bench.Prelude.{
  ℕ, zero, suc, ◌+◌, ◌-◌, ◌≤◌, ◌<◌, ◌≡◌, ◌≢◌, refl, sym, ap, ◌∙◌, subst, String, List, Option, none,
  some, length, ◌⊎◌, In, inl, inr, arith, Option-cases, ok, raise,
}
use levelup_bench.Prelude.Arrays.{
  replicate, item_at, write_at, length-write_at, length-replicate, item_at-write_at_self,
  item_at-write_at_ne,
}
use levelup_bench.Core.Faults.{assertion_error}
use levelup_bench.MacroTrack.{ActionSpec, valid_specs, walk}
use levelup_bench.MacroTrack.Oracle.{
  Plan, empty_plan, cell, try_actions, fill_table, first_table, optimal_valid_actions,
}
use levelup_bench.MacroTrack.Oracle.Routes.{Route, stay, go, IsRoute, AtMost, IsCheapest, Holds}
use levelup_bench.MacroTrack.Oracle.Tables.{IsFilled, try_actions-Beats}

-- Every valid action makes progress.
pub valid_progress : (a : ActionSpec) → In a valid_specs → 1 ≤ a.progress
valid_progress a (inl e) = rw e (omega arith)
valid_progress a (inr (inl e)) = rw e (omega arith)
valid_progress a (inr (inr (inl e))) = rw e (omega arith)
valid_progress a (inr (inr (inr (inl e)))) = rw e (omega arith)
valid_progress a (inr (inr (inr (inr none_left)))) = absurd none_left

-- The last action of a path that makes progress.
Route-last :
    {q c : ℕ} {names : List String}
    → Route q c names
    → 1 ≤ q
    → (a : ActionSpec) × In a valid_specs
      × (p : ℕ) × (k : ℕ) × (shorter : List String) × (q ≡ p + a.progress)
      × (c ≡ k + a.tick_cost)
      × Route p k shorter
Route-last stay h = absurd (omega arith)
Route-last (go a m e f _ rest) h = (a, m, _, _, _, e, f, rest)

eq_cases : (m n : ℕ) → (m ≡ n) ⊎ (m ≢ n)
eq_cases m n = ground arith

winner-Holds :
    (best : List (Option Plan)) (position : ℕ)
    → 1 ≤ position
    → IsFilled best position
    → Holds position (try_actions best position none valid_specs)
winner-Holds best position pos filled =
    let (path, _, beaten) =
      try_actions-Beats best position filled none valid_specs (λ a m. (m, valid_progress a m)) tt in
    holds (try_actions best position none valid_specs) path beaten
  where
    holds :
        (winner : Option Plan)
        → IsRoute position winner
        → ((a : ActionSpec)
            → In a valid_specs
            → (p k : ℕ) (names : List String) → Route p k names
            → position ≡ p + a.progress
            → AtMost winner (k + a.tick_cost))
        → Holds position winner
    holds none path beaten = elim (Option-cases (cell best (position - 1))) [
      | inl missing ↦ (let b = filled (position - 1) (omega arith) in rw missing at b)
      | inr (previous, here) ↦
          let c : IsCheapest (position - 1) previous =
            rw here at (filled (position - 1) (omega arith)) in
          beaten walk (inl refl) (position - 1) previous.cost previous.actions c.reaches
            (omega arith)
    ]
    holds (some plan) path beaten = record {
      reaches = path;
      least = λ k names path'.
          let (a, m, p, k', shorter, e, f, rest) = Route-last path' pos in
          rw f (beaten a m p k' shorter rest e);
    }

cell-write_at_self :
    (p : ℕ) (v : Option Plan) (best : List (Option Plan))
    → p < length best
    → cell (write_at p v best) p ≡ v
cell-write_at_self p v best lt =
    ap (λ (o : Option (Option Plan)). elim o [ none ↦ none | some c ↦ c ])
      (item_at-write_at_self p v best lt)

cell-write_at_ne :
    (p q : ℕ) (v : Option Plan) (best : List (Option Plan))
    → q ≢ p
    → cell (write_at p v best) q ≡ cell best q
cell-write_at_ne p q v best ne =
    ap (λ (o : Option (Option Plan)). elim o [ none ↦ none | some c ↦ c ])
      (item_at-write_at_ne p q v best ne)

write_at-IsFilled :
    (best : List (Option Plan)) (position : ℕ) (winner : Option Plan)
    → position < length best
    → IsFilled best position
    → Holds position winner
    → IsFilled (write_at position winner best) (suc position)
write_at-IsFilled best position winner lt filled h q below = elim (eq_cases q position) [
  | inl same ↦
      subst (λ n. Holds n (cell (write_at position winner best) n)) (sym same)
        (subst (Holds position) (sym (cell-write_at_self position winner best lt)) h)
  | inr other ↦
      subst (Holds q) (sym (cell-write_at_ne position q winner best other))
        (filled q (omega (arith, other)))
]

-- What the table holds once so many rounds from a position are done.
fill_table-Holds :
    (distance rounds position : ℕ) (best : List (Option Plan))
    → position + rounds ≡ suc distance
    → 1 ≤ position
    → length best ≡ suc distance
    → IsFilled best position
    → IsFilled (fill_table rounds position best) (suc distance)
unfolding fill_table
fill_table-Holds distance zero position best e pos size filled =
    subst (IsFilled best) (omega arith) filled
fill_table-Holds distance (suc rounds) position best e pos size filled =
    let winner = try_actions best position none valid_specs in
    fill_table-Holds distance rounds (suc position) (write_at position winner best) (omega arith)
      (omega arith) (length-write_at position winner best ∙ size)
      (write_at-IsFilled best position winner (omega arith) filled
        (winner-Holds best position pos filled))

first_table-IsFilled : (distance : ℕ) → IsFilled (first_table distance) 1
unfolding replicate write_at item_at
first_table-IsFilled distance zero h = record {
  reaches = stay;
  least = λ k names path. omega arith;
}
first_table-IsFilled distance (suc q) h = absurd (omega arith)

-- For every distance, the oracle does not fail its assertion. Its actions are valid, progress by exactly
-- the distance, and no valid actions that do so cost fewer ticks.
pub optimal_valid_actions-IsCheapest :
    (distance : ℕ)
    → (plan : Plan) × (optimal_valid_actions distance ≡ ok plan.actions) × IsCheapest distance plan
unfolding optimal_valid_actions
optimal_valid_actions-IsCheapest distance =
    let filled =
      fill_table-Holds distance distance 1 (first_table distance) (omega arith) (omega arith)
        (length-write_at 0 (some empty_plan) (replicate (suc distance) none)
          ∙ length-replicate (suc distance) none)
        (first_table-IsFilled distance) in
    of_cell _ (filled distance (omega arith)) refl
  where
    of_cell :
        (c : Option Plan)
        → Holds distance c
        → cell (fill_table distance 1 (first_table distance)) distance ≡ c
        → (plan : Plan) × (elim (cell (fill_table distance 1 (first_table distance)) distance) [
          | none ↦ raise assertion_error
          | some plan ↦ ok plan.actions
        ]
            ≡ ok plan.actions)
          × IsCheapest distance plan
    of_cell none h here = absurd h
    of_cell (some plan) h here = (
      plan,
      ap
          (λ (c : Option Plan). elim c [
            | none ↦ raise assertion_error
            | some plan ↦ ok plan.actions
          ])
          here,
      h,
    )
