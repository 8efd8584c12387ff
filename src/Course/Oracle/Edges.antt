-- ===== src/Course/Oracle/Edges.antt =====
-- The edges of the search are the steps that are neither forbidden nor overshooting.
use levelup_bench.Prelude.{
  ◌≡◌, Bool, false, ◌&&◌, List, some, arith, In, inl, inr, In-collect, collect-In, Option-cases,
  Bool-cases, ltb, eqb,
}
use levelup_bench.Search.Walks.{Edge}
use levelup_bench.Track.{OpaqueAction, valid_actions}
use levelup_bench.Course.{Course}
use levelup_bench.Course.Oracle.{price, edge_of, edges}

-- The edge of an action out of a state.
pub record IsEdge (c : Course) (penalize : Bool) (actions : List OpaqueAction) (s : c.State)
    (x : Edge c.State) : Type 0 where
  pub action : OpaqueAction
  pub listed : In action actions
  pub moves : c.move s action ≡ some (x.next, action.tick_cost)
  pub advances : (ltb 0 action.progress && eqb (c.progress x.next) (c.progress s)) ≡ false
  pub named : x.alias ≡ action.alias
  pub priced : x.cost ≡ price c penalize action action.tick_cost

module _ (c : Course) (penalize : Bool) (s : c.State) where
  edge_of-IsEdge :
      (actions : List OpaqueAction) (a : OpaqueAction) (x : Edge c.State)
      → In a actions
      → edge_of c penalize s a ≡ some x
      → IsEdge c penalize actions s x
  unfolding edge_of
  edge_of-IsEdge actions a x m h = elim (Option-cases (c.move s a)) [
    | inl stuck ↦ ground arith
    | inr (moved, e) ↦
        elim (Bool-cases (ltb 0 a.progress && eqb (c.progress moved.0) (c.progress s))) [
          | inl over ↦ ground arith
          | inr fine ↦
              let ticks : moved.1 ≡ a.tick_cost = c.move_ticks s a moved.0 moved.1 e in
              let same : x.next ≡ moved.0 = ground arith in
              record {
                action = a;
                listed = m;
                moves = ground arith;
                advances = rw same fine;
                named = ground arith;
                priced = ground arith;
              }
        ]
  ]

  pub edges-IsEdge :
      (x : Edge c.State)
      → In x (edges c penalize s)
      → IsEdge c penalize (valid_actions c.actions) s x
  unfolding edges
  edges-IsEdge x m =
      let (a, n, h) = In-collect (edge_of c penalize s) (valid_actions c.actions) x m in
      edge_of-IsEdge (valid_actions c.actions) a x n h

  -- A transition of an action that is not forbidden is an edge, unless it overshoots.
  pub edges-In :
      (a : OpaqueAction) (s' : c.State)
      → In a (valid_actions c.actions)
      → c.move s a ≡ some (s', a.tick_cost)
      → (ltb 0 a.progress && eqb (c.progress s') (c.progress s)) ≡ false
      → In
          (record { alias = a.alias; next = s'; cost = price c penalize a a.tick_cost })
          (edges c penalize s)
  unfolding edges edge_of
  edges-In a s' m moved fine =
      collect-In (edge_of c penalize s) (valid_actions c.actions) a _ m
        (rw (moved, edge_of) (rw fine))
