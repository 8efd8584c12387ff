-- ===== src/Microgames/Detour/Routes.antt =====
-- The way of a trajectory through the grid.
use levelup_bench.Prelude.{
  ℕ, suc, ◌+◌, ◌-◌, ◌≡◌, ◌∙◌, refl, sym, ap, subst, String, Bool, true, List, [], ◌∷◌, ◌++◌, Option,
  none, some, length, In, inl, inr, arith, eqb, ltb, string_eq, ◌==◌, ok, Result, ok-injective,
  raise_if-eq-ok, lookup-eq-ok, if◌then◌else◌, Bool-cases,
}
use mathlib.Core.List.{append-nil, append_assoc}
use levelup_bench.Prelude.Int.{ℤ, pos}
use levelup_bench.Core.Faults.{Fault}
use levelup_bench.Core.Json.{JsonValue, int}
use levelup_bench.Core.Numbers.{float}
use levelup_bench.Core.Outcome.{BenchmarkResult, EfficiencyMetrics, performance_eligible_for}
use levelup_bench.Core.Outcome.Validity.{eligible_parts}
use levelup_bench.Core.Trajectory.{Trajectory, TrajectoryStep}
use levelup_bench.Environment.{StepOutcome}
use levelup_bench.Evaluation.{evaluate_trajectory}
use levelup_bench.Evaluation.Traces.{
  Trace, Replayed, evaluate_trajectory-Replayed, Judged-verify_all,
}
use levelup_bench.Runtime.{Runtime}
use levelup_bench.Track.{has_arguments}
use levelup_bench.Microgames.Detour.{
  Tile, start_tile, goal_tile, forbidden_tile, same_tile, Move, up, down, left, right, find_move,
  moved, visits, DetourSession, detour_start, detour_task_spec, detour_outcome, detour_reset,
  detour_advance, detour_step, detour_environment,
}
use levelup_bench.Microgames.Detour.Bounds.{InGrid, moved-InGrid, verified}

-- The less of a number and a limit.
abbrev capped : ℕ → ℕ → ℕ
capped limit n = if ltb limit n then limit else n

-- Where an action leads from a tile, with walls around the five columns and three rows.
abbrev pub tile_after : String → Tile → Tile
tile_after name p =
    if name == "up"
    then record { x = p.x; y = p.y - 1 }
    else if name == "down"
    then record { x = p.x; y = capped 2 (p.y + 1) }
    else if name == "left"
    then record { x = p.x - 1; y = p.y }
    else if name == "right"
    then record { x = capped 4 (p.x + 1); y = p.y }
    else p

-- The tiles that the steps lead to, and the last one, or the first where there is none.
abbrev pub route : Tile → List TrajectoryStep → List Tile
route p [] = []
route p (s ∷ rest) = tile_after s.action.name p ∷ route (tile_after s.action.name p) rest

abbrev pub destination : Tile → List TrajectoryStep → Tile
destination p [] = p
destination p (s ∷ rest) = destination (tile_after s.action.name p) rest

same_row :
    (x y y' : ℕ) → y ≡ y' → ◌≡◌ {A = Tile} (record { x = x; y = y }) (record { x = x; y = y' })
same_row x y y' e = ap (λ n. record { x = x; y = n }) e

same_column :
    (x x' y : ℕ) → x ≡ x' → ◌≡◌ {A = Tile} (record { x = x; y = y }) (record { x = x'; y = y })
same_column x x' y e = ap (λ n. record { x = n; y = y }) e

-- What the moves do in the grid.
moved-wall :
    (p : Tile)
    → InGrid p
    → (moved up p ≡ record { x = p.x; y = p.y - 1 })
      × (moved down p ≡ record { x = p.x; y = capped 2 (p.y + 1) })
      × (moved left p ≡ record { x = p.x - 1; y = p.y })
      × (moved right p ≡ record { x = capped 4 (p.x + 1); y = p.y })
moved-wall p (h, k) = (
  (elim (Bool-cases (eqb p.y 0)) [
    | inl at ↦ rw at (same_row p.x p.y (p.y - 1) (ground arith))
    | inr away ↦ rw away refl
  ]),
  (elim (Bool-cases (ltb (p.y + 1) 3)) [
    | inl free ↦ rw free (same_row p.x (p.y + 1) (capped 2 (p.y + 1)) (ground arith))
    | inr wall ↦ rw wall (same_row p.x p.y (capped 2 (p.y + 1)) (ground arith))
  ]),
  (elim (Bool-cases (eqb p.x 0)) [
    | inl at ↦ rw at (same_column p.x (p.x - 1) p.y (ground arith))
    | inr away ↦ rw away refl
  ]),
  (elim (Bool-cases (ltb (p.x + 1) 5)) [
    | inl free ↦ rw free (same_column (p.x + 1) (capped 4 (p.x + 1)) p.y (ground arith))
    | inr wall ↦ rw wall (same_column p.x (capped 4 (p.x + 1)) p.y (ground arith))
  ]),
)

moved-tile_after :
    (name : String) (m : Move) (p : Tile)
    → InGrid p
    → find_move name ≡ some m
    → moved m p ≡ tile_after name p
unfolding find_move
moved-tile_after name m p g h =
    let (ups, downs, lefts, rights) = moved-wall p g in
    elim (Bool-cases (name == "up")) [
      | inl a ↦
          let e : some up ≡ some m = rw a at h in
          let same : up ≡ m = cc e in rw a (ap (λ k. moved k p) (sym same) ∙ ups)
      | inr b ↦ elim (Bool-cases (name == "down")) [
        | inl a ↦
            let e : some down ≡ some m = rw (b, a) at h in
            let same : down ≡ m = cc e in rw (b, a) (ap (λ k. moved k p) (sym same) ∙ downs)
        | inr c ↦ elim (Bool-cases (name == "left")) [
          | inl a ↦
              let e : some left ≡ some m = rw (b, c, a) at h in
              let same : left ≡ m = cc e in rw (b, c, a) (ap (λ k. moved k p) (sym same) ∙ lefts)
          | inr d ↦ elim (Bool-cases (name == "right")) [
            | inl a ↦
                let e : some right ≡ some m = rw (b, c, d, a) at h in
                let same : right ≡ m = cc e in
                rw (b, c, d, a) (ap (λ k. moved k p) (sym same) ∙ rights)
            | inr f ↦ absurd (let e : none ≡ some m = rw (b, c, d, f) at h in cc e)
          ]
        ]
      ]
    ]

same_tile→≡ : (p q : Tile) → same_tile p q ≡ true → p ≡ q
same_tile→≡ p q h = same_column p.x q.x p.y (ground arith) ∙ same_row q.x p.y q.y (ground arith)

visits-In : (ps : List Tile) → In forbidden_tile ps → visits (pos 2) (pos 1) ps ≡ true
unfolding visits
visits-In [] m = absurd m
visits-In (p ∷ ps) (inl e) = subst (λ (q : Tile). visits (pos 2) (pos 1) (q ∷ ps) ≡ true) e refl
visits-In (p ∷ ps) (inr m) = let h = visits-In ps m in ground arith

module _ (rt : Runtime) (int_of : JsonValue → Result Fault ℤ) where
  -- What a replay from one session to another has visited, counted and reached.
  record Travels (xs : List TrajectoryStep) (g : DetourSession) (g' : DetourSession)
      (completed : Bool) : Type 0 where
    visited : g'.visited ≡ g.visited ++ route g.position xs
    reached : g'.position ≡ destination g.position xs
    counted : g'.action_count ≡ g.action_count + length xs
    complete : completed ≡ same_tile g'.position goal_tile

  Trace-Travels :
      (xs : List TrajectoryStep) (g : DetourSession) (c : Bool) (g' : DetourSession) (c' : Bool)
      → Trace (detour_environment rt int_of) xs g c g' c'
      → InGrid g.position
      → c ≡ same_tile g.position goal_tile
      → Travels xs g g' c'
  unfolding detour_step
  Trace-Travels [] g c g' c' (p, q) inside at =
      subst (λ (k : DetourSession). Travels [] g k c') p
        (record {
          visited = sym (append-nil g.visited);
          reached = refl;
          counted = omega arith;
          complete = sym q ∙ at;
        })
  Trace-Travels (x ∷ xs) g c g' c' (going, next, o, stepped, agrees, rest) inside at =
      let (m, found, e) =
        lookup-eq-ok (has_arguments x.action.arguments) (find_move x.action.name) _ _
          (λ m.
            (detour_advance rt int_of g m, detour_outcome rt int_of (detour_advance rt int_of g m)))
          stepped in
      let stands : next ≡ detour_advance rt int_of g m =
        sym (ap (λ (q : DetourSession × StepOutcome). q.0) e) in
      let tells : o.completed ≡ same_tile next.position goal_tile =
        subst
          (λ (q : DetourSession × StepOutcome). q.1.completed ≡ same_tile q.0.position goal_tile) e
          refl in
      let goes : next.position ≡ tile_after x.action.name g.position =
        ap (λ (k : DetourSession). k.position) stands
        ∙ moved-tile_after x.action.name m g.position inside found in
      let there : InGrid next.position =
        subst (λ (k : DetourSession). InGrid k.position) (sym stands)
          (moved-InGrid m g.position inside) in
      let w = Trace-Travels xs next o.completed g' c' rest there tells in
      record {
        visited =
            w.visited
            ∙ ap (λ l. l ++ route next.position xs)
                (ap (λ (k : DetourSession). k.visited) stands
                  ∙ ap (λ q. g.visited ++ q ∷ [])
                      (moved-tile_after x.action.name m g.position inside found))
            ∙ append_assoc g.visited (tile_after x.action.name g.position ∷ [])
                (route next.position xs)
            ∙ ap (λ q. g.visited ++ tile_after x.action.name g.position ∷ route q xs) goes;
        reached = w.reached ∙ ap (λ q. destination q xs) goes;
        counted =
            let n : next.action_count ≡ suc g.action_count =
              ap (λ (k : DetourSession). k.action_count) stands in
            omega (arith, w.counted, n);
        complete = w.complete;
      }

-- `int_of_int`: Python's `int` returns a whole number as it is.
module _ (rt : Runtime) (int_of : JsonValue → Result Fault ℤ)
    (int_of_int : (n : ℤ) → int_of (int n) ≡ ok n) where
  -- An eligible result on the grid is that of a trajectory whose actions lead to the goal without the forbidden tile, and its performance is their number, where `int` returns a whole number as it is.
  pub detour_eligible-Avoids :
      (tr : Trajectory) (run_id : Option String) (m : Option EfficiencyMetrics)
      (r : BenchmarkResult)
      → evaluate_trajectory (detour_environment rt int_of) tr run_id m ≡ ok r
      → performance_eligible_for r detour_task_spec ≡ true
      → (¬ In forbidden_tile (route start_tile tr.steps))
        × (destination start_tile tr.steps ≡ goal_tile)
        × (r.performance_value ≡ some (float (length tr.steps)))
  unfolding detour_reset
  detour_eligible-Avoids tr run_id m r h eligible =
      let p : Replayed (detour_environment rt int_of) tr r =
        evaluate_trajectory-Replayed (detour_environment rt int_of) tr run_id m r h in
      let (_, begun) = raise_if-eq-ok _ _ _ p.resets in
      let start : ◌≡◌ {A = DetourSession × StepOutcome}
          (detour_start, detour_outcome rt int_of detour_start) (p.start, p.initial) =
        ok-injective begun in
      let begins : detour_start ≡ p.start = ap (λ (q : DetourSession × StepOutcome). q.0) start in
      let tells : p.initial.completed ≡ same_tile p.start.position goal_tile =
        subst
          (λ (q : DetourSession × StepOutcome). q.1.completed ≡ same_tile q.0.position goal_tile)
          start refl in
      let inside : InGrid p.start.position =
        subst (λ (g : DetourSession). InGrid g.position) begins (omega arith, omega arith) in
      let w : Travels rt int_of tr.steps detour_start p.final r.completed =
        subst (λ (g : DetourSession). Travels rt int_of tr.steps g p.final r.completed) (sym begins)
          (Trace-Travels rt int_of tr.steps p.start p.initial.completed p.final r.completed
            p.replays inside tells) in
      let (completed, satisfied) = eligible_parts r detour_task_spec eligible in
      let (o, single, passed) = verified rt int_of int_of_int p.final r.constraint_outcomes (
        Judged-verify_all (detour_environment rt int_of) p.final detour_task_spec.constraints
          r.constraint_outcomes p.judged) in
      let (_, passes) = satisfied.declared o (subst (In o) (sym single) (inl refl)) in
      (
        (λ bad.
            let seen : visits (pos 2) (pos 1) p.final.visited ≡ true =
              visits-In p.final.visited (subst (In forbidden_tile) (sym w.visited) (inr bad)) in
            absurd (ground arith)),
        sym w.reached ∙ same_tile→≡ p.final.position goal_tile (sym w.complete ∙ completed),
        p.performs
            ∙ ap (λ (b : Bool). if b then some (float p.final.action_count) else none) completed
            ∙ ap (λ n. some (float n))
                (let n : p.final.action_count ≡ length tr.steps = omega (arith, w.counted) in n),
      )
