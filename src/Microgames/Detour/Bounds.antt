-- ===== src/Microgames/Detour/Bounds.antt =====
-- No lawful way through the grid takes fewer than six actions.
use levelup_bench.Prelude.{
  ℕ, suc, ◌+◌, ◌-◌, ◌≤◌, ◌<◌, ◌≡◌, ◌∙◌, refl, sym, ap, subst, Bool, true, false, not, List, [], ◌∷◌,
  ◌++◌, Option, some, In, inl, arith, eqb, ltb, ok, Result, ok-injective, raise_if-eq-ok,
  lookup-eq-ok, >>=-eq-ok, if◌then◌else◌, String,
}
use levelup_bench.Prelude.Int.{ℤ, pos}
use levelup_bench.Core.Faults.{Fault}
use levelup_bench.Core.Json.{JsonValue, int}
use levelup_bench.Core.Numbers.{float}
use levelup_bench.Core.Outcome.{
  BenchmarkResult, ConstraintOutcome, EfficiencyMetrics, performance_eligible_for,
}
use levelup_bench.Core.Trajectory.{Trajectory}
use levelup_bench.Environment.{StepOutcome}
use levelup_bench.Evaluation.{evaluate_trajectory, verify_all}
use levelup_bench.Evaluation.Invariants.{Keeps, Achieved, evaluate_trajectory-Achieved}
use levelup_bench.Runtime.{Runtime}
use levelup_bench.Track.{has_arguments}
use levelup_bench.Microgames.Detour.{
  Tile, goal_tile, forbidden_tile, same_tile, Move, up, down, left, right, find_move, moved, visits,
  DetourSession, detour_start, avoid_forbidden_tile, detour_task_spec, detour_outcome, detour_reset,
  detour_advance, detour_step, verify_never_visited, detour_environment,
}

-- The number of steps that are left at least, around the forbidden tile.
distance_left : Tile → ℕ
distance_left p = if eqb p.y 1 then (if ltb p.x 2 then 6 - p.x else 4 - p.x) else 5 - p.x

-- The tile is in the grid.
abbrev pub InGrid : Tile → Type 0
InGrid p = (p.x < 5) × (p.y < 3)

pub moved-InGrid : (m : Move) (p : Tile) → InGrid p → InGrid (moved m p)
moved-InGrid up p (h, k) = ground arith
moved-InGrid down p (h, k) = ground arith
moved-InGrid left p (h, k) = ground arith
moved-InGrid right p (h, k) = ground arith

-- A step between tiles that are not forbidden gets nearer by one at most.
distance_left-moved :
    (m : Move) (p : Tile)
    → InGrid p
    → same_tile p forbidden_tile ≡ false
    → same_tile (moved m p) forbidden_tile ≡ false
    → distance_left p ≤ suc (distance_left (moved m p))
unfolding distance_left
distance_left-moved up p (h, k) a b = ground arith
distance_left-moved down p (h, k) a b = ground arith
distance_left-moved left p (h, k) a b = ground arith
distance_left-moved right p (h, k) a b = ground arith

visits-append_one :
    (xs : List Tile) (p : Tile)
    → visits (pos 2) (pos 1) (xs ++ p ∷ []) ≡ false
    → (visits (pos 2) (pos 1) xs ≡ false) × (same_tile p forbidden_tile ≡ false)
unfolding visits
visits-append_one [] p h = (refl, ground arith)
visits-append_one (x ∷ xs) p h =
    let (a, b) = visits-append_one xs p (ground arith) in (ground arith, b)

-- What holds of a session: the position is in the grid, completion is read off it, and unless the forbidden tile was visited, six actions are taken or left.
record IsDetour (g : DetourSession) (completed : Bool) : Type 0 where
  complete : completed ≡ same_tile g.position goal_tile
  in_grid : InGrid g.position
  left_over :
      visits (pos 2) (pos 1) g.visited ≡ false
      → (same_tile g.position forbidden_tile ≡ false)
        × (6 ≤ g.action_count + distance_left g.position)

module _ (rt : Runtime) (int_of : JsonValue → Result Fault ℤ) where
  IsDetour-kept : Keeps (detour_environment rt int_of) IsDetour
  unfolding detour_reset detour_step distance_left
  IsDetour-kept = record {
    at_reset = λ seed g o h.
        let (_, k) = raise_if-eq-ok _ _ _ h in
        let e : ◌≡◌ {A = DetourSession × StepOutcome}
            (detour_start, detour_outcome rt int_of detour_start) (g, o) =
          ok-injective k in
        subst (λ (q : DetourSession × StepOutcome). IsDetour q.0 q.1.completed) e
          (record {
            complete = refl;
            in_grid = (omega arith, omega arith);
            left_over = λ _. (refl, omega arith);
          });
    at_step = λ g a g' o i h.
        let (m, found, e) =
          lookup-eq-ok (has_arguments a.arguments) (find_move a.name) _ _
            (λ m. (
              detour_advance rt int_of g m,
              detour_outcome rt int_of (detour_advance rt int_of g m),
            ))
            h in
        subst (λ (q : DetourSession × StepOutcome). IsDetour q.0 q.1.completed) e
          (record {
            complete = refl;
            in_grid = moved-InGrid m g.position i.in_grid;
            left_over = λ clear.
                let (before, here) = visits-append_one g.visited (moved m g.position) clear in
                let (apart, enough) = i.left_over before in
                (
                  here,
                  omega (arith, distance_left-moved m g.position i.in_grid apart here, enough),
                );
          });
  }

-- `int_of_int`: Python's `int` returns a whole number as it is.
module _ (rt : Runtime) (int_of : JsonValue → Result Fault ℤ)
    (int_of_int : (n : ℤ) → int_of (int n) ≡ ok n) where
  pub verified :
      (g : DetourSession) (outcomes : List ConstraintOutcome)
      → verify_all (detour_environment rt int_of) g (avoid_forbidden_tile ∷ []) ≡ ok outcomes
      → (o : ConstraintOutcome) × (outcomes ≡ o ∷ [])
        × (o.passed ≡ not (visits (pos 2) (pos 1) g.visited))
  unfolding verify_all verify_never_visited
  verified g outcomes h =
      let (o, checked, rest) =
        >>=-eq-ok (verify_never_visited rt int_of g avoid_forbidden_tile) _ h in
      let (a, first, k) = >>=-eq-ok (int_of (int (pos 2))) _ checked in
      let (b, second, l) = >>=-eq-ok (int_of (int (pos 1))) _ k in
      let two : a ≡ pos 2 = ok-injective (sym first ∙ int_of_int (pos 2)) in
      let one : b ≡ pos 1 = ok-injective (sym second ∙ int_of_int (pos 1)) in
      (
        o,
        sym (ok-injective rest),
        sym (ap (λ (c : ConstraintOutcome). c.passed) (ok-injective l))
            ∙ ap (λ (n : ℤ). not (visits n b g.visited)) two
            ∙ ap (λ (n : ℤ). not (visits (pos 2) n g.visited)) one,
      )

  -- The performance of an eligible result on the grid is a count of six actions at least, where `int` returns a whole number as it is.
  pub detour-ge-six :
      (tr : Trajectory) (run_id : Option String) (m : Option EfficiencyMetrics)
      (r : BenchmarkResult)
      → evaluate_trajectory (detour_environment rt int_of) tr run_id m ≡ ok r
      → performance_eligible_for r detour_task_spec ≡ true
      → (actions : ℕ) × (r.performance_value ≡ some (float actions)) × (6 ≤ actions)
  unfolding distance_left
  detour-ge-six tr run_id m r h eligible =
      let a : Achieved (detour_environment rt int_of) IsDetour r =
        evaluate_trajectory-Achieved (detour_environment rt int_of) IsDetour
          (IsDetour-kept rt int_of) tr run_id m r h eligible in
      let (o, single, passed) = verified a.final r.constraint_outcomes a.verifies in
      let (_, passes) = a.satisfied.declared o (subst (In o) (sym single) (inl refl)) in
      let at_goal : true ≡ same_tile a.final.position goal_tile = a.holds.complete in
      let (_, enough) = a.holds.left_over (ground arith) in
      (a.final.action_count, a.performs, ground arith)
