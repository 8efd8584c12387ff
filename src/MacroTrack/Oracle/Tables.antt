-- ===== src/MacroTrack/Oracle/Tables.antt =====
-- What the loops of `_optimal_valid_actions` keep.
use levelup_bench.Prelude.{
  ℕ, ◌+◌, ◌-◌, ◌≤◌, ◌<◌, ◌≡◌, refl, subst, String, List, [], ◌∷◌, Option, none, some, In, inl, inr,
  arith, ltb, ltb→lt, Bool-cases, Option-cases,
}
use levelup_bench.MacroTrack.{ActionSpec, valid_specs}
use levelup_bench.MacroTrack.Oracle.{Plan, cell, extend_plan, better_plan, try_action, try_actions}
use levelup_bench.MacroTrack.Oracle.Routes.{Route, go, IsRoute, AtMost, IsCheapest, Holds}

-- Below the position, every cell holds a cheapest plan.
abbrev pub IsFilled : List (Option Plan) → ℕ → Type 0
IsFilled best position = (q : ℕ) → q < position → Holds q (cell best q)

module _ (best : List (Option Plan)) (position : ℕ) (filled : IsFilled best position) where
  -- What a winner has beaten once an action has been tried as the last one.
  abbrev pub Beats : Option Plan → ActionSpec → Type 0
  Beats winner a =
      (p k : ℕ) (names : List String)
      → Route p k names
      → position ≡ p + a.progress
      → AtMost winner (k + a.tick_cost)

  record IsTried (before : Option Plan) (a : ActionSpec) (after : Option Plan) : Type 0 where
    is_route : IsRoute position after
    no_worse : (k : ℕ) → AtMost before k → AtMost after k
    beats : Beats after a

  better_plan-IsTried :
      (winner : Option Plan) (a : ActionSpec) (previous : Plan)
      → In a valid_specs
      → a.progress ≤ position
      → IsRoute position winner
      → IsCheapest (position - a.progress) previous
      → IsTried winner a (some (better_plan winner (extend_plan previous a)))
  better_plan-IsTried none a previous m le h c = record {
    is_route = go a m (omega arith) refl refl c.reaches;
    no_worse = λ k b. absurd b;
    beats = λ p k names path e.
        omega (arith, c.least k names (subst (λ q. Route q k names) (omega arith) path));
  }
  better_plan-IsTried (some winner) a previous m le h c =
      let least : Beats (some (extend_plan previous a)) a = λ p k names path e.
        omega (arith, c.least k names (subst (λ q. Route q k names) (omega arith) path)) in
      elim (Bool-cases (ltb (previous.cost + a.tick_cost) winner.cost)) [
        | inl cheaper ↦ rw cheaper (record {
          is_route = go a m (omega arith) refl refl c.reaches;
          no_worse = λ k b. omega (arith, ltb→lt _ _ cheaper);
          beats = least;
        })
        | inr dearer ↦ rw dearer (record {
          is_route = h;
          no_worse = λ k b. b;
          beats = λ p k names path e.
              let w : previous.cost + a.tick_cost ≤ k + a.tick_cost = least p k names path e in
              ground arith;
        })
      ]

  try_action-IsTried :
      (winner : Option Plan) (a : ActionSpec)
      → In a valid_specs
      → 1 ≤ a.progress
      → IsRoute position winner
      → IsTried winner a (try_action best position winner a)
  unfolding try_action
  try_action-IsTried winner a m pos h = elim (Bool-cases (ltb position a.progress)) [
    | inl far ↦
        let lt : position < a.progress = ltb→lt _ _ far in
        rw far (record {
          is_route = h;
          no_worse = λ k b. b;
          beats = λ p k names path e. absurd (omega arith);
        })
    | inr near ↦
        let le : a.progress ≤ position = ground arith in
        rw near (elim (Option-cases (cell best (position - a.progress))) [
          | inl missing ↦
              absurd (let b = filled (position - a.progress) (omega arith) in rw missing at b)
          | inr (previous, here) ↦
              let c : IsCheapest (position - a.progress) previous =
                rw here at (filled (position - a.progress) (omega arith)) in
              rw here (better_plan-IsTried winner a previous m le h c)
        ])
  ]

  -- After the inner loop, every action that was tried is beaten.
  pub try_actions-Beats :
      (winner : Option Plan) (specs : List ActionSpec)
      → ((a : ActionSpec) → In a specs → In a valid_specs × (1 ≤ a.progress))
      → IsRoute position winner
      → IsRoute position (try_actions best position winner specs)
        × ((k : ℕ) → AtMost winner k → AtMost (try_actions best position winner specs) k)
        × ((a : ActionSpec) → In a specs → Beats (try_actions best position winner specs) a)
  unfolding try_actions
  try_actions-Beats winner [] ok_specs h = (h, (λ k b. b), λ a m. absurd m)
  try_actions-Beats winner (a ∷ rest) ok_specs h =
      let (m, pos) = ok_specs a (inl refl) in
      let t : IsTried winner a (try_action best position winner a) =
        try_action-IsTried winner a m pos h in
      let (path, keeps, beaten) =
        try_actions-Beats (try_action best position winner a) rest (λ b n. ok_specs b (inr n))
          t.is_route in
      (
        path,
        (λ k b. keeps k (t.no_worse k b)),
        λ b. elim [
          | inl same ↦ rw same (λ p k names q e. keeps (k + a.tick_cost) (t.beats p k names q e))
          | inr n ↦ beaten b n
        ],
      )
