-- ===== src/Course/Oracle/Replay.antt =====
-- Walks of the search are runs of `step` without the forbidden action, and the other way round.
use levelup_bench.Prelude.{
  ℕ, ◌+◌, ◌≡◌, ◌≢◌, ◌∙◌, sym, ap, refl, String, Bool, true, false, List, [], ◌∷◌, ◌++◌, some, arith,
  In, inl, inr, ok, raise, ok-injective, Result-cases, Bool-cases,
}
use mathlib.Core.List.{append-nil, append_assoc}
use levelup_bench.Core.Trajectory.{plain_action}
use levelup_bench.Runtime.{Runtime}
use levelup_bench.Search.Walks.{Edge, Walk, walk_cost, aliases}
use levelup_bench.Track.{OpaqueAction, find_action, valid_actions}
use levelup_bench.Track.Actions.{
  In-valid_actions, valid_actions-In, find_action-In, find_action_self,
}
use levelup_bench.Course.{Course, Session, step, outcome}
use levelup_bench.Course.Runs.{run, step-Steps, step_succeeds, after_action}
use levelup_bench.Course.Valid.{IsFair}
use levelup_bench.Course.Oracle.{price, edges, true_cost}
use levelup_bench.Course.Oracle.Edges.{IsEdge, edges-IsEdge, edges-In}

true_cost-cons :
    (actions : List OpaqueAction) (name : String) (rest : List String) (a : OpaqueAction) (n : ℕ)
    → find_action name actions ≡ some a
    → true_cost actions rest ≡ some n
    → true_cost actions (name ∷ rest) ≡ some (a.tick_cost + n)
unfolding true_cost
true_cost-cons actions name rest a n h k = ground arith

module _ (rt : Runtime) (c : Course) (v : IsFair c.actions c.forbidden_alias) where
  -- What the actions of a path do to a session.
  pub record Plays (g : Session c.State) (path : List String) (u : c.State) (ticks : ℕ)
      : Type 0 where
    pub final : Session c.State
    pub runs : run rt c g path ≡ ok final
    pub arrives : final.state ≡ u
    pub elapsed : final.elapsed_ticks ≡ g.elapsed_ticks + ticks
    pub costs : true_cost c.actions path ≡ some ticks
    pub lawful : ¬ In c.forbidden_alias path
    pub taken : final.actions_taken ≡ g.actions_taken ++ path

  lawful_alias : (a : OpaqueAction) → In a (valid_actions c.actions) → c.forbidden_alias ≢ a.alias
  lawful_alias a m p =
      let (n, allowed) = In-valid_actions c.actions a m in
      let hit : find_action a.alias c.actions ≡ some a = find_action_self c.actions a v.unique n in
      let hit' : find_action v.override.alias c.actions ≡ some v.override =
        find_action_self c.actions v.override v.unique v.is_action in
      cc (hit, hit', p, v.named, allowed, v.is_forbidden)

  -- Every walk can be played, with or without the perceived costs.
  pub Walk-Plays :
      (penalize : Bool) (g : Session c.State) (w : List (Edge c.State)) (u : c.State)
      → Walk (edges c penalize) g.state w u
      → (ticks : ℕ) × Plays g (aliases w) u ticks
  unfolding run true_cost
  Walk-Plays penalize g [] u h = (
    0,
    record {
      final = g;
      runs = refl;
      arrives = h;
      elapsed = omega arith;
      costs = refl;
      lawful = λ m. m;
      taken = sym (append-nil _);
    },
  )
  Walk-Plays penalize g (x ∷ w) u (m, h) =
      let i : IsEdge c penalize (valid_actions c.actions) g.state x =
        edges-IsEdge c penalize g.state x m in
      let (listed, allowed) = In-valid_actions c.actions i.action i.listed in
      let named : find_action x.alias c.actions ≡ some i.action =
        rw (i.named) (find_action_self c.actions i.action v.unique listed) in
      let first : step rt c g (plain_action x.alias)
          ≡ ok (
            after_action c g x.alias i.action x.next,
            outcome rt c (after_action c g x.alias i.action x.next),
          ) =
        step_succeeds rt c g x.alias i.action x.next named i.moves
          (ground (arith, i.advances, allowed)) in
      let (ticks, p) = Walk-Plays penalize (after_action c g x.alias i.action x.next) w u h in
      (
        i.action.tick_cost + ticks,
        record {
          final = p.final;
          runs = rw first p.runs;
          arrives = p.arrives;
          elapsed = omega (arith, p.elapsed);
          costs = true_cost-cons c.actions x.alias (aliases w) i.action ticks named p.costs;
          lawful = λ n. elim n [
            | inl same ↦ lawful_alias i.action i.listed (same ∙ i.named)
            | inr later ↦ p.lawful later
          ];
          taken = p.taken ∙ append_assoc g.actions_taken (x.alias ∷ []) (aliases w);
        },
      )

  -- Without perceived costs, a walk costs the ticks of its actions.
  pub Walk-ticks :
      (s : c.State) (w : List (Edge c.State)) (u : c.State)
      → Walk (edges c false) s w u
      → true_cost c.actions (aliases w) ≡ some (walk_cost w)
  unfolding true_cost price
  Walk-ticks s [] u h = refl
  Walk-ticks s (x ∷ w) u (m, h) =
      let i : IsEdge c false (valid_actions c.actions) s x = edges-IsEdge c false s x m in
      let (listed, allowed) = In-valid_actions c.actions i.action i.listed in
      let named : find_action x.alias c.actions ≡ some i.action =
        rw (i.named) (find_action_self c.actions i.action v.unique listed) in
      true_cost-cons c.actions x.alias (aliases w) i.action (walk_cost w) named
        (Walk-ticks x.next w u h)
      ∙ ap (λ n. some (n + walk_cost w)) (sym i.priced)

  -- Where `step` refuses an action that overshoots, every run that never names the forbidden alias
  -- is a walk, at the cost of its ticks.
  pub run-Walk :
      c.strict ≡ true
      → (g : Session c.State) (names : List String) (g' : Session c.State)
      → run rt c g names ≡ ok g'
      → ¬ In c.forbidden_alias names
      → (w : List (Edge c.State)) × Walk (edges c false) g.state w g'.state
        × (g'.elapsed_ticks ≡ g.elapsed_ticks + walk_cost w)
  unfolding run price
  run-Walk strict g [] g' h lawful =
      let same : g ≡ g' = ok-injective h in
      (
        [],
        ap (λ (s : Session c.State). s.state) same,
        omega (arith, ap (λ (s : Session c.State). s.elapsed_ticks) same),
      )
  run-Walk strict g (name ∷ rest) g' h lawful =
      elim (Result-cases (step rt c g (plain_action name))) [
        | inl (f, bad) ↦ absurd (cc (let k : raise f ≡ ok g' = rw (bad, run) at h in k))
        | inr ((g1, o), good) ↦
            let (s, _, _) = step-Steps rt c g (plain_action name) g1 o good in
            let (listed, named) = find_action-In name c.actions s.action s.found_as in
            let allowed : s.action.forbidden ≡ false = elim (Bool-cases s.action.forbidden) [
              | inr h' ↦ h'
              | inl bad ↦ absurd (
                  lawful (
                    inl (
                      sym v.named
                      ∙ ap (λ (a : OpaqueAction). a.alias) (sym (v.only s.action listed bad))
                      ∙ named)))
            ] in
            let m =
              edges-In c false g.state s.action g1.state
                (valid_actions-In c.actions s.action listed allowed) s.moves
                (ground (arith, s.advances strict, allowed)) in
            let (w, walk, ticks) =
              run-Walk strict g1 rest g' (rw good at h) (λ n. lawful (inr n)) in
            (_ ∷ w, (m, walk), omega (arith, s.ticks))
      ]
