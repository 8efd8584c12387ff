-- ===== src/Course/Oracle/Optimum.antt =====
-- What `optimal_path` and `frontier_path` return, on a course with finitely many states.
use levelup_bench.Prelude.{
  ℕ, ◌+◌, ◌*◌, ◌≤◌, ◌<◌, ◌≡◌, ◌≢◌, ◌∙◌, subst, ap, refl, String, Bool, true, false, List, Option,
  none, some, arith, In, Result, ok, raise, length, eqb_iff,
}
use levelup_bench.Core.Faults.{Fault, runtime_error}
use levelup_bench.Runtime.{Runtime}
use levelup_bench.Search
use levelup_bench.Search.{Outcome, found, no_completion, out_of_fuel, unreached}
use levelup_bench.Search.Fuel.{search_path-total}
use levelup_bench.Search.Optimal.{BestReport, search_path-BestReport}
use levelup_bench.Search.Sentinel.{CappedReport, search_path-CappedReport}
use levelup_bench.Search.Sound.{Reaches, Reports, search_path-Reports}
use levelup_bench.Search.Walks.{Edge, Walk, walk_cost}
use levelup_bench.Track.{OpaqueAction}
use levelup_bench.Course.{Course, Session, fresh_session}
use levelup_bench.Course.Oracle.{
  edges, is_goal, true_cost, conclude, search_path, optimal_path, frontier_path,
}
use levelup_bench.Course.Oracle.Edges.{IsEdge, edges-IsEdge}
use levelup_bench.Course.Oracle.Replay.{Walk-Plays, Walk-ticks, run-Walk}
use levelup_bench.Course.Runs.{run}
use levelup_bench.Course.Valid.{IsFair}

-- Finitely many states, given by a list, that the actions of a course do not leave.
pub record IsBounded (c : Course) : Type 1 where
  pub IsWithin : c.State → Type 0
  pub states : List c.State
  pub listed : (s : c.State) → IsWithin s → In s states
  pub starts : IsWithin c.start_state
  pub leads :
      (s : c.State) (a : OpaqueAction) (s' : c.State) (n : ℕ)
      → c.move s a ≡ some (s', n)
      → IsWithin s
      → IsWithin s'

-- Fuel for `_search_path` over so many states: more rounds than it can take.
unfoldable pub enough_fuel : ℕ → ℕ
enough_fuel states = 2 * (states * unreached) + 2

edges-IsWithin :
    (c : Course) (b : IsBounded c) (penalize : Bool) (s : c.State)
    → b.IsWithin s
    → (x : Edge c.State) → In x (edges c penalize s)
    → b.IsWithin x.next
edges-IsWithin c b penalize s w x m =
    let i : IsEdge c penalize _ s x = edges-IsEdge c penalize s x m in
    b.leads s i.action x.next i.action.tick_cost i.moves w

ends :
    (fuel : ℕ) (c : Course) (b : IsBounded c) (penalize : Bool)
    → enough_fuel (length b.states) ≤ fuel
    → Search.search_path ⦃e = c.same_state⦄ (edges c penalize) (is_goal c) fuel c.start_state
      ≢ out_of_fuel
unfolding enough_fuel
ends fuel c b penalize h =
    search_path-total ⦃e = c.same_state⦄ (edges c penalize) (is_goal c) b.states b.IsWithin b.listed
      (edges-IsWithin c b penalize) fuel c.start_state b.starts (omega arith)

no_dearer : (best ticks : ℕ) → best < unreached → (ticks < unreached → best ≤ ticks) → best ≤ ticks
no_dearer best ticks lt h = ground arith

conclude-found :
    (c : Course) (cost : ℕ) (path : List String) (ticks : ℕ)
    → true_cost c.actions path ≡ some ticks
    → conclude c (found cost path) ≡ some (ok (ticks, path))
unfolding conclude
conclude-found c cost path ticks h = rw (h, conclude)

module _ (rt : Runtime) (c : Course) where
  -- A run from the reset state to the target that never takes the forbidden action.
  pub record Completes (path : List String) (ticks : ℕ) : Type 0 where
    pub final : Session c.State
    pub runs : run rt c (fresh_session c) path ≡ ok final
    pub arrives : c.progress final.state ≡ c.target
    pub elapsed : final.elapsed_ticks ≡ ticks
    pub lawful : ¬ In c.forbidden_alias path

  -- The search has ended. A returned path completes the task lawfully in the returned number of
  -- ticks; a RuntimeError means that no lawful run of less than 10 ** 18 ticks completes it.
  abbrev pub IsDelivered : Option (Result Fault (ℕ × List String)) → Type 0
  IsDelivered none = ⊥
  IsDelivered (some (ok (ticks, path))) = Completes path ticks
  IsDelivered (some (raise runtime_error)) =
      (path : List String) (ticks : ℕ) → Completes path ticks → unreached ≤ ticks
  IsDelivered (some (raise fault)) = ⊥

  -- The search has ended, and a returned path completes the task lawfully in so many ticks.
  abbrev pub IsPlayed : Option (Result Fault (ℕ × List String)) → Type 0
  IsPlayed none = ⊥
  IsPlayed (some (ok (ticks, path))) = Completes path ticks
  IsPlayed (some (raise runtime_error)) = Unit
  IsPlayed (some (raise fault)) = ⊥

  -- The returned number of ticks is the least one.
  abbrev pub IsLeast : Option (Result Fault (ℕ × List String)) → Type 0
  IsLeast (some (ok (best, _))) =
      (path : List String) (ticks : ℕ) → Completes path ticks → best ≤ ticks
  IsLeast (some (raise fault)) = Unit
  IsLeast none = Unit

  module _ (v : IsFair c.actions c.forbidden_alias) where
    Reaches-Completes :
        (penalize : Bool) (cost : ℕ) (path : List String) (u : c.State)
        → Reaches ⦃e = c.same_state⦄ (edges c penalize) (is_goal c) c.start_state cost path u
        → is_goal c u ≡ true
        → (ticks : ℕ) × (true_cost c.actions path ≡ some ticks) × Completes path ticks
    unfolding is_goal
    Reaches-Completes penalize cost path u r goal =
        let (ticks, p) = Walk-Plays rt c v penalize (fresh_session c) r.walk u r.walks in
        (
          ticks,
          rw (← r.spells) p.costs,
          record {
            final = p.final;
            runs = rw (← r.spells) p.runs;
            arrives = ap c.progress p.arrives ∙ (eqb_iff _ _).0 goal;
            elapsed = p.elapsed ∙ omega arith;
            lawful = rw (← r.spells) p.lawful;
          },
        )

    delivers :
        (penalize : Bool) (o : Outcome)
        → Reports ⦃e = c.same_state⦄ (edges c penalize) (is_goal c) c.start_state o
        → o ≢ out_of_fuel
        → IsPlayed (conclude c o)
    unfolding conclude
    delivers penalize (found cost path) (u, r, goal) running =
        let (ticks, costs, done) = Reaches-Completes penalize cost path u r goal in
        rw (conclude-found c cost path ticks costs) done
    delivers penalize no_completion r running = tt
    delivers penalize Search.key_error r running = absurd r
    delivers penalize out_of_fuel r running = absurd (running refl)

    -- On every course with finitely many states and with enough fuel, the search of either oracle
    -- ends. Unless it raises a RuntimeError it returns a run from the reset state that completes the
    -- task without the forbidden action, and the true number of its ticks, not the perceived one.
    pub search_path-IsPlayed :
        (b : IsBounded c) (penalize : Bool) (fuel : ℕ)
        → enough_fuel (length b.states) ≤ fuel
        → IsPlayed (search_path fuel c penalize)
    unfolding search_path
    search_path-IsPlayed b penalize fuel h =
        delivers penalize
          (Search.search_path ⦃e = c.same_state⦄ (edges c penalize) (is_goal c) fuel c.start_state)
          (search_path-Reports ⦃e = c.same_state⦄ (edges c penalize) (is_goal c) c.start_state fuel)
          (ends fuel c b penalize h)

  module _ (v : IsFair c.actions c.forbidden_alias) (strict : c.strict ≡ true) where
    Completes-Walk :
        (path : List String) (ticks : ℕ)
        → Completes path ticks
        → (w : List (Edge c.State)) × (u : c.State) × Walk (edges c false) c.start_state w u
          × (is_goal c u ≡ true)
          × (walk_cost w ≡ ticks)
    unfolding is_goal
    Completes-Walk path ticks done =
        let (w, walk, cost) =
          run-Walk rt c v strict (fresh_session c) path done.final done.runs done.lawful in
        (w, done.final.state, walk, (eqb_iff _ _).1 done.arrives, omega (arith, done.elapsed))

    least :
        (o : Outcome)
        → Reports ⦃e = c.same_state⦄ (edges c false) (is_goal c) c.start_state o
        → BestReport ⦃e = c.same_state⦄ (edges c false) (is_goal c) c.start_state o
        → CappedReport ⦃e = c.same_state⦄ (edges c false) (is_goal c) c.start_state o
        → o ≢ out_of_fuel
        → IsDelivered (conclude c o) × IsLeast (conclude c o)
    unfolding conclude
    least (found cost path) (u, r, goal) best capped running =
        let (ticks, costs, done) = Reaches-Completes v false cost path u r goal in
        let priced = Walk-ticks rt c v c.start_state r.walk u r.walks in
        let same : ticks ≡ cost = cc (costs, priced, ap (true_cost c.actions) r.spells, r.costs) in
        rw (conclude-found c cost path ticks costs) (
          done,
          λ path' ticks' done'. rw same (
              let (w, u', walk, goal', total) = Completes-Walk path' ticks' done' in
              no_dearer cost ticks' capped
                (λ lt. omega (arith, best w u' walk goal' (omega (arith, total))))),
        )
    least no_completion r best capped running = (
      (λ path ticks done.
          let (w, u, walk, goal, total) = Completes-Walk path ticks done in
          omega (arith, best w u walk goal)),
      tt,
    )
    least Search.key_error r best capped running = absurd r
    least out_of_fuel r best capped running = absurd (running refl)

    -- On every course with finitely many states whose `step` refuses what overshoots, and with enough
    -- fuel, `optimal_path` ends. Either it returns a run that completes the task without the forbidden
    -- action, with the number of its ticks, and no such run takes fewer; or it raises a RuntimeError,
    -- and every such run takes 10 ** 18 ticks or more.
    pub optimal_path-IsLeast :
        (b : IsBounded c) (fuel : ℕ)
        → enough_fuel (length b.states) ≤ fuel
        → IsDelivered (optimal_path fuel c) × IsLeast (optimal_path fuel c)
    unfolding search_path
    optimal_path-IsLeast b fuel h =
        least (Search.search_path ⦃e = c.same_state⦄ (edges c false) (is_goal c) fuel c.start_state)
          (search_path-Reports ⦃e = c.same_state⦄ (edges c false) (is_goal c) c.start_state fuel)
          (search_path-BestReport ⦃e = c.same_state⦄ (edges c false) (is_goal c) c.start_state fuel)
          (search_path-CappedReport ⦃e = c.same_state⦄ (edges c false) (is_goal c) c.start_state
            fuel)
          (ends fuel c b false h)

    -- On every course with fair actions and finitely many states whose `step` refuses what overshoots,
    -- and with enough fuel, what `optimal_path` returns is no more than what `frontier_path` returns.
    pub optimal-le-frontier :
        (b : IsBounded c) (fuel : ℕ) (best front : ℕ) (path path' : List String)
        → enough_fuel (length b.states) ≤ fuel
        → optimal_path fuel c ≡ some (ok (best, path))
        → frontier_path fuel c ≡ some (ok (front, path'))
        → best ≤ front
    optimal-le-frontier b fuel best front path path' h p q =
        subst IsLeast p (optimal_path-IsLeast b fuel h).1 path' front
          (subst IsPlayed q (search_path-IsPlayed v b true fuel h))
