-- ===== src/Course/Runs.antt =====
-- What a successful `step` has done, and runs of several steps.
use levelup_bench.Prelude.{
  ◌+◌, ◌≡◌, ◌∙◌, sym, subst, ap, refl, String, true, false, ◌&&◌, List, [], ◌∷◌, ◌++◌, some,
  string_eq, arith, inl, inr, Result, ok, raise, ok-injective, >>=-eq-ok, ◌>>=◌, Option-cases,
  Bool-cases,
}
use levelup_bench.Core.Faults.{Fault}
use levelup_bench.Core.Trajectory.{ActionRecord, plain_action}
use levelup_bench.Environment.{StepOutcome}
use levelup_bench.Runtime.{Runtime}
use levelup_bench.Track.{OpaqueAction, find_action, has_arguments}
use levelup_bench.Course.{Course, Session, overshoots, take_action, step, outcome}

module _ (c : Course) where
  -- What a step that did not raise has found and done.
  pub record Steps (g : Session c.State) (name : String) (g' : Session c.State) : Type 0 where
    pub action : OpaqueAction
    pub found_as : find_action name c.actions ≡ some action
    pub moves : c.move g.state action ≡ some (g'.state, action.tick_cost)
    pub advances : c.strict ≡ true → overshoots c action g.state g'.state ≡ false
    pub ticks : g'.elapsed_ticks ≡ g.elapsed_ticks + action.tick_cost
    pub taken : g'.actions_taken ≡ g.actions_taken ++ name ∷ []

  -- The session after an action that leads to `s'`.
  abbrev pub after_action : Session c.State → String → OpaqueAction → c.State → Session c.State
  after_action g name a s' = record {
    state = s';
    elapsed_ticks = g.elapsed_ticks + a.tick_cost;
    actions_taken = g.actions_taken ++ name ∷ [];
  }

  take_action-made :
      (g : Session c.State) (name : String) (a : OpaqueAction) (g' : Session c.State)
      → take_action c g name a ≡ ok g'
      → (s' : c.State) × (c.move g.state a ≡ some (s', a.tick_cost))
        × ((c.strict && overshoots c a g.state s') ≡ false)
        × (g' ≡ after_action g name a s')
  unfolding take_action
  take_action-made g name a g' h = elim (Option-cases (c.move g.state a)) [
    | inl stuck ↦ absurd (cc (let k : raise _ ≡ ok g' = rw (stuck, take_action) at h in k))
    | inr ((s', n), moved) ↦
        let ticks : n ≡ a.tick_cost = c.move_ticks g.state a s' n moved in
        elim (Bool-cases (c.strict && overshoots c a g.state s')) [
          | inl over ↦
              absurd (cc (let k : raise _ ≡ ok g' = rw over at (rw (moved, take_action) at h) in k))
          | inr fine ↦
              let made : ok _ ≡ ok g' = rw fine at (rw (moved, take_action) at h) in
              (
                s',
                moved ∙ ap (λ k. some (s', k)) ticks,
                fine,
                sym (ok-injective made)
                    ∙ ap
                        (λ k. record {
                          state = s';
                          elapsed_ticks = g.elapsed_ticks + k;
                          actions_taken = g.actions_taken ++ name ∷ [];
                        })
                        ticks,
              )
        ]
  ]

  take_action-Steps :
      (g : Session c.State) (name : String) (a : OpaqueAction) (g' : Session c.State)
      → find_action name c.actions ≡ some a
      → take_action c g name a ≡ ok g'
      → Steps g name g'
  take_action-Steps g name a g' found h =
      let (s', moved, fine, made) = take_action-made g name a g' h in
      subst (Steps g name) (sym made) (record {
        action = a;
        found_as = found;
        moves = moved;
        advances = λ strict. ground arith;
        ticks = refl;
        taken = refl;
      })

  take_action_succeeds :
      (g : Session c.State) (name : String) (a : OpaqueAction) (s' : c.State)
      → c.move g.state a ≡ some (s', a.tick_cost)
      → overshoots c a g.state s' ≡ false
      → take_action c g name a ≡ ok (after_action g name a s')
  unfolding take_action
  take_action_succeeds g name a s' moved fine = elim (Bool-cases c.strict) [
    | inl strict ↦ rw (moved, take_action) (rw strict (rw fine))
    | inr loose ↦ rw (moved, take_action) (rw loose)
  ]

module _ (rt : Runtime) (c : Course) where
  pub step-Steps :
      (g : Session c.State) (action : ActionRecord) (g' : Session c.State) (o : StepOutcome)
      → step rt c g action ≡ ok (g', o)
      → Steps c g action.name g' × (o ≡ outcome rt c g') × (has_arguments action.arguments ≡ false)
  unfolding step
  step-Steps g action g' o h = elim (Bool-cases (has_arguments action.arguments)) [
    | inl given ↦ absurd (cc (let k : raise _ ≡ ok _ = rw given at h in k))
    | inr plain ↦ elim (Option-cases (find_action action.name c.actions)) [
      | inl missing ↦ absurd (cc (let k : raise _ ≡ ok _ = rw missing at (rw plain at h) in k))
      | inr (a, found) ↦
          let (g1, taken, made) =
            >>=-eq-ok (take_action c g action.name a) _ (rw found at (rw plain at h)) in
          let e : ◌≡◌ {A = Session c.State × StepOutcome} (g1, outcome rt c g1) (g', o) =
            ok-injective made in
          let same : g1 ≡ g' = ap (λ (q : Session c.State × StepOutcome). q.0) e in
          (
            take_action-Steps c g action.name a g' found
                (subst (λ x. take_action c g action.name a ≡ ok x) same taken),
            sym (ap (λ (q : Session c.State × StepOutcome). q.1) e) ∙ ap (outcome rt c) same,
            plain,
          )
    ]
  ]

  pub step_succeeds :
      (g : Session c.State) (name : String) (a : OpaqueAction) (s' : c.State)
      → find_action name c.actions ≡ some a
      → c.move g.state a ≡ some (s', a.tick_cost)
      → overshoots c a g.state s' ≡ false
      → step rt c g (plain_action name)
        ≡ ok (after_action c g name a s', outcome rt c (after_action c g name a s'))
  unfolding step
  step_succeeds g name a s' found moved fine =
      rw found (rw (take_action_succeeds c g name a s' moved fine) refl)

  -- `for name in path: environment.step(ActionRecord(name=name))`
  unfoldable pub run : Session c.State → List String → Result Fault (Session c.State)
  run g [] = ok g
  run g (name ∷ rest) = do (g', _) ← step rt c g (plain_action name); run g' rest
