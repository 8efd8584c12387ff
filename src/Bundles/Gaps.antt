-- ===== src/Bundles/Gaps.antt =====
-- What the loops of the bundles and the held-out tasks collect.
use levelup_bench.Prelude.{
  ℕ, zero, suc, ◌≤◌, ◌<◌, ◌≡◌, ◌∙◌, refl, sym, ap, subst, String, Bool, true, false, ◌&&◌, ◌||◌,
  List, [], ◌∷◌, ◌++◌, map, Option, none, some, length, length-append, All, arith, ltb, ltb→lt, leb,
  Bool-cases, Option-cases, Result-cases, Result, ok, raise, ◌>>=◌, >>=-eq-ok, raise_if-eq-ok,
  ok-injective, if◌then◌else◌, inl, inr,
}
use levelup_bench.Core.Faults.{Fault}
use levelup_bench.Core.Json.{Fields}
use levelup_bench.Core.Ladder.{ImprovementStage, ImprovementLadder, check_ladder}
use levelup_bench.Core.Ladder.Order.{check_ladder-same}
use levelup_bench.Core.Trajectory.{Trajectory, check_trajectory, steps_from}
use levelup_bench.Core.Numbers.{Float, float}
use levelup_bench.Core.Task.{minimize}
use levelup_bench.Course.{Course}
use levelup_bench.Course.Oracle.{optimal_path, frontier_path}
use levelup_bench.Bundles.{
  ◌>>>=◌, Costs, both_costs, same_path, has_gap, Bundle, bundled, bundled_stage, bundle_of,
  lacks_gap, Paired, held_out, track_bundle, collect_bundles,
}

>>>=-eq-ok :
    {F A B : Type 0} (m : Option (Result F A)) (f : A → Option (Result F B)) {b : B}
    → (m >>>= f) ≡ some (ok b)
    → (a : A) × (m ≡ some (ok a)) × (f a ≡ some (ok b))
>>>=-eq-ok none f h = cc
>>>=-eq-ok (some (raise e)) f h = cc
>>>=-eq-ok (some (ok a)) f h = (a, refl, h)

above : (m n : ℕ) (b : Bool) → (leb m n || b) ≡ false → n < m
above m n b h = ground arith

check_trajectory-same : (t t' : Trajectory) → check_trajectory t ≡ ok t' → t ≡ t'
unfolding check_trajectory
check_trajectory-same t t' h = let (_, k) = raise_if-eq-ok _ _ _ h in ok-injective k

skipped :
    {A : Type 0} (e : Fault) {r : A} (b : Bool) (more : Option (Result Fault A))
    → (if b then more else some (raise e)) ≡ some (ok r)
    → more ≡ some (ok r)
skipped e true more h = h
skipped e false more h = cc

and_first : (a b : Bool) → (a && b) ≡ true → a ≡ true
and_first true b h = refl
and_first false b h = h

All-append_one :
    {A : Type 0} (P : A → Type 0) (xs : List A) (x : A) → All P xs → P x → All P (xs ++ x ∷ [])
All-append_one P [] x h p = (p, tt)
All-append_one P (y ∷ ys) x (q, h) p = (q, All-append_one P ys x h p)

-- Both oracles have returned for the course, and the optimum is strictly less.
pub record HasGap (fuel : ℕ) (c : Course) (best : ℕ) : Type 0 where
  pub path : List String
  pub frontier : ℕ
  pub other_path : List String
  pub optimum_found : optimal_path fuel c ≡ some (ok (best, path))
  pub frontier_found : frontier_path fuel c ≡ some (ok (frontier, other_path))
  pub strict : best < frontier

both_costs-found :
    (fuel : ℕ) (c : Course) (o : Costs)
    → both_costs fuel c ≡ some (ok o)
    → (optimal_path fuel c ≡ some (ok (o.optimum_cost, o.optimum_actions)))
      × (frontier_path fuel c ≡ some (ok (o.frontier_cost, o.frontier_actions)))
unfolding both_costs
both_costs-found fuel c o h =
    let (f, first, h1) = >>>=-eq-ok (frontier_path fuel c) _ h in
    let (b, second, h2) = >>>=-eq-ok (optimal_path fuel c) _ h1 in
    let same : record {
      frontier_cost = f.0;
      frontier_actions = f.1;
      optimum_cost = b.0;
      optimum_actions = b.1;
    }
        ≡ o =
      (let k : some (ok _) ≡ some (ok o) = h2 in cc k) in
    subst
      (λ (p : Costs).
        (optimal_path fuel c ≡ some (ok (p.optimum_cost, p.optimum_actions)))
        × (frontier_path fuel c ≡ some (ok (p.frontier_cost, p.frontier_actions))))
      same (second, first)

abbrev both_costs-HasGap :
    (fuel : ℕ) (c : Course) (o : Costs)
    → both_costs fuel c ≡ some (ok o)
    → o.optimum_cost < o.frontier_cost
    → HasGap fuel c o.optimum_cost
both_costs-HasGap fuel c o h lt =
    let (second, first) = both_costs-found fuel c o h in
    record {
      path = o.optimum_actions;
      frontier = o.frontier_cost;
      other_path = o.frontier_actions;
      optimum_found = second;
      frontier_found = first;
      strict = lt;
    }

module _ {T : Type 0} (make : ℕ → Option (Result Fault T)) (course_of : T → Course) (fuel : ℕ) where
  -- The track was made for some task index, has a gap, and is paired with its optimum.
  pub record IsHeldOut (p : Paired T Float) : Type 0 where
    pub index : ℕ
    pub best : ℕ
    pub made : make index ≡ some (ok p.track)
    pub gap : HasGap fuel (course_of p.track) best
    pub valued : p.value ≡ float best

  held_out-All :
      (rounds count index : ℕ) (tasks result : List (Paired T Float))
      → length tasks ≤ count
      → All IsHeldOut tasks
      → held_out make course_of fuel rounds count index tasks ≡ some (ok result)
      → (length result ≡ count) × All IsHeldOut result
  unfolding held_out
  held_out-All zero count index tasks result few kept h = cc
  held_out-All (suc rounds) count index tasks result few kept h =
      elim (Bool-cases (ltb (length tasks) count)) [
        | inr full ↦
            let k : some (ok tasks) ≡ some (ok result) = rw (full, held_out) at h in
            let e : tasks ≡ result = cc k in
            let size : length tasks ≡ count = ground arith in
            (rw (← e) size, subst (All IsHeldOut) e kept)
        | inl short ↦
            let k : (make index >>>= λ t. both_costs fuel (course_of t) >>>= λ o.
            held_out make course_of fuel rounds count (suc index) (
              if has_gap o
              then tasks ++ record { track = t; value = float o.optimum_cost } ∷ []
              else tasks))
                ≡ some (ok result) =
              rw (short, held_out) at h in
            let (t, made, k1) = >>>=-eq-ok (make index) _ k in
            let (o, costs, k2) = >>>=-eq-ok (both_costs fuel (course_of t)) _ k1 in
            elim (Bool-cases (has_gap o)) [
              | inr none_here ↦
                  held_out-All rounds count (suc index) tasks result few kept (rw none_here at k2)
              | inl gap ↦
                  let pair : Paired T Float = record { track = t; value = float o.optimum_cost } in
                  let first : ltb o.optimum_cost o.frontier_cost ≡ true = and_first _ _ gap in
                  let lt : o.optimum_cost < o.frontier_cost = ltb→lt _ _ first in
                  let room : length tasks < count = ltb→lt _ _ short in
                  held_out-All rounds count (suc index) (tasks ++ pair ∷ []) result
                    (omega (arith, length-append tasks (pair ∷ []), room))
                    (All-append_one IsHeldOut tasks pair kept (record {
                      index = index;
                      best = o.optimum_cost;
                      made = made;
                      gap = both_costs-HasGap fuel (course_of t) o costs lt;
                      valued = refl;
                    }))
                    (rw gap at k2)
            ]
      ]

  -- Held-out tasks that are returned are as many as asked for, and each is a track that was made for a task index, on which frontier_path returns strictly more than optimal_path, paired with the optimum.
  pub held_out-IsHeldOut :
      (rounds count : ℕ) (result : List (Paired T Float))
      → held_out make course_of fuel rounds count 0 [] ≡ some (ok result)
      → (length result ≡ count) × All IsHeldOut result
  held_out-IsHeldOut rounds count result h =
      held_out-All rounds count 0 [] result (omega arith) tt h

  -- The track was made for some task index, has a gap, and is bundled with a ladder of the frontier's and the optimum's costs and a trajectory of each path.
  pub record IsBundled (provenance : String → Fields) (p : Paired T Bundle) : Type 0 where
    pub index : ℕ
    pub best : ℕ
    pub made : make index ≡ some (ok p.track)
    pub gap : HasGap fuel (course_of p.track) best
    pub costs :
        map (λ (s : ImprovementStage). s.performance_value) p.value.ladder.stages
        ≡ float gap.frontier ∷ float best ∷ []
    pub recorded :
        map (λ (t : Trajectory). t.steps) p.value.trajectories
        ≡ steps_from 0 gap.other_path ∷ steps_from 0 gap.path ∷ []
    pub valid : check_ladder p.value.ladder ≡ ok p.value.ladder

  bundle_of-IsBundled :
      (provenance : String → Fields) (index : ℕ) (t : T) (o : Costs) (b : Bundle)
      → make index ≡ some (ok t)
      → both_costs fuel (course_of t) ≡ some (ok o)
      → bundle_of ((course_of t).task_spec).task_id provenance o ≡ ok b
      → IsBundled provenance (record { track = t; value = b })
  unfolding bundle_of
  bundle_of-IsBundled provenance index t o b made costs h =
      let task_id = ((course_of t).task_spec).task_id in
      let frontier = bundled task_id "frontier" o.frontier_actions in
      let optimum = bundled task_id "optimum" o.optimum_actions in
      let l : ImprovementLadder = record {
        task_id = task_id;
        direction = minimize;
        stages =
            bundled_stage task_id 0 "frontier" o.frontier_cost (provenance "frontier")
            ∷ bundled_stage task_id 1 "optimum" o.optimum_cost (provenance "optimum")
            ∷ [];
      } in
      let (gap, h1) =
        raise_if-eq-ok
          (leb o.frontier_cost o.optimum_cost || same_path o.frontier_actions o.optimum_actions) _ _
          h in
      let (x, first, h2) = >>=-eq-ok (check_trajectory frontier) _ h1 in
      let (y, second, h3) = >>=-eq-ok (check_trajectory optimum) _ h2 in
      let (l', valid, h4) = >>=-eq-ok (check_ladder l) _ h3 in
      let lt : o.optimum_cost < o.frontier_cost = above _ _ _ gap in
      let same : l ≡ l' = check_ladder-same l l' valid in
      subst (λ (c : Bundle). IsBundled provenance (record { track = t; value = c }))
        (ok-injective h4)
        (record {
          index = index;
          best = o.optimum_cost;
          made = made;
          gap = both_costs-HasGap fuel (course_of t) o costs lt;
          costs =
              ap
                (λ (m : ImprovementLadder).
                  map (λ (s : ImprovementStage). s.performance_value) m.stages)
                (sym same);
          recorded =
              rw
                (← check_trajectory-same frontier x first, ← check_trajectory-same optimum y second)
                refl;
          valid =
              subst (λ m. check_ladder m ≡ ok m) same
                (subst (λ m. check_ladder l ≡ ok m) (sym same) valid);
        })

  track_bundle-IsBundled :
      (provenance : String → Fields) (index : ℕ) (b : Paired T Bundle)
      → track_bundle make course_of fuel provenance index ≡ some (ok b)
      → IsBundled provenance b
  unfolding track_bundle
  track_bundle-IsBundled provenance index b h =
      let (t, made, h1) = >>>=-eq-ok (make index) _ h in
      let (o, costs, h2) = >>>=-eq-ok (both_costs fuel (course_of t)) _ h1 in
      let k : (bundle_of ((course_of t).task_spec).task_id provenance o >>= λ v.
      ok (record { track = t; value = v }))
          ≡ ok b =
        cc h2 in
      let (v, built, h3) =
        >>=-eq-ok (bundle_of ((course_of t).task_spec).task_id provenance o) _ k in
      subst (IsBundled provenance) (ok-injective h3)
        (bundle_of-IsBundled provenance index t o v made costs built)

  collect_bundles-All :
      (provenance : String → Fields) (rounds count index : ℕ)
      (bundles result : List (Paired T Bundle))
      → length bundles ≤ count
      → All (IsBundled provenance) bundles
      → collect_bundles make course_of fuel provenance rounds count index bundles ≡ some (ok result)
      → (length result ≡ count) × All (IsBundled provenance) result
  unfolding collect_bundles
  collect_bundles-All provenance zero count index bundles result few kept h = cc
  collect_bundles-All provenance (suc rounds) count index bundles result few kept h =
      elim (Bool-cases (ltb (length bundles) count)) [
        | inr full ↦
            let k : some (ok bundles) ≡ some (ok result) = rw (full, collect_bundles) at h in
            let e : bundles ≡ result = cc k in
            let size : length bundles ≡ count = ground arith in
            (rw (← e) size, subst (All (IsBundled provenance)) e kept)
        | inl short ↦
            let room : length bundles < count = ltb→lt _ _ short in
            let next : List (Paired T Bundle) → Option (Result Fault (List (Paired T Bundle))) =
              collect_bundles make course_of fuel provenance rounds count (suc index) in
            elim (Option-cases (track_bundle make course_of fuel provenance index)) [
              | inl endless ↦ absurd (
                  let k : none ≡ some (ok result) = rw (short, endless, collect_bundles) at h in
                  cc k)
              | inr (r, ended) ↦ elim (Result-cases r) [
                | inl (e, refused) ↦
                    let k : (if lacks_gap e then next bundles else some (raise e))
                        ≡ some (ok result) =
                      rw (short, ended, refused, collect_bundles) at h in
                    collect_bundles-All provenance rounds count (suc index) bundles result few kept
                      (skipped e (lacks_gap e) (next bundles) k)
                | inr (b, accepted) ↦
                    let k : next (bundles ++ b ∷ []) ≡ some (ok result) =
                      rw (short, ended, accepted, collect_bundles) at h in
                    collect_bundles-All provenance rounds count (suc index) (bundles ++ b ∷ [])
                      result (omega (arith, length-append bundles (b ∷ []), room))
                      (All-append_one (IsBundled provenance) bundles b kept
                        (track_bundle-IsBundled provenance index b (ended ∙ ap some accepted)))
                      k
              ]
            ]
      ]

  -- Bundles that are returned are as many as asked for. Each is of a track that was made for a task index and on which frontier_path returns strictly more than optimal_path; its ladder is accepted and has these two costs, and its trajectories are the two paths.
  pub collect_bundles-IsBundled :
      (provenance : String → Fields) (rounds count : ℕ) (result : List (Paired T Bundle))
      → collect_bundles make course_of fuel provenance rounds count 0 [] ≡ some (ok result)
      → (length result ≡ count) × All (IsBundled provenance) result
  collect_bundles-IsBundled provenance rounds count result h =
      collect_bundles-All provenance rounds count 0 [] result (omega arith) tt h
