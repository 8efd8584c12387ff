-- ===== src/Search/Rounds.antt =====
-- One round of the search by its cases, and the rule for the loop.
use levelup_bench.Prelude.{
  ℕ, zero, suc, ◌≡◌, ◌≢◌, Bool, true, false, List, [], Eq, eqb, inl, inr, none, some, arith,
  Bool-cases, Option-cases,
}
use levelup_bench.Search.{
  Frontier, Outcome, found, no_completion, key_error, out_of_fuel, Round, finish, again, relax_all,
  visit, round, loop,
}
use levelup_bench.Search.Best.{lookup}
use levelup_bench.Search.Heap.{Entry, heappop, heappop-Takes, heappop-empty, Takes}
use levelup_bench.Search.Walks.{Edge}

module _ {S : Type 0} ⦃e : Eq S⦄ (edges : S → List (Edge S)) (is_goal : S → Bool) where
  -- What a round does to the frontier `f`, with the reason.
  pub data RoundView (f : Frontier S) : Round S → Type 0 where
    exhausted : f.queue ≡ [] → RoundView f (finish no_completion)
    unknown :
        (x : Entry S) (rest : List (Entry S))
        → Takes f.queue x rest
        → lookup x.state f.best ≡ none
        → RoundView f (finish key_error)
    stale :
        (x : Entry S) (rest : List (Entry S)) (b : ℕ)
        → Takes f.queue x rest
        → lookup x.state f.best ≡ some b
        → x.cost ≢ b
        → RoundView f (again (record f { queue = rest }))
    arrived :
        (x : Entry S) (rest : List (Entry S))
        → Takes f.queue x rest
        → lookup x.state f.best ≡ some x.cost
        → is_goal x.state ≡ true
        → RoundView f (finish (found x.cost x.path))
    expanded :
        (x : Entry S) (rest : List (Entry S))
        → Takes f.queue x rest
        → lookup x.state f.best ≡ some x.cost
        → is_goal x.state ≡ false
        → RoundView f (again (relax_all x.cost x.path (record f { queue = rest }) (edges x.state)))

  visit-RoundView :
      (f : Frontier S) (x : Entry S) (rest : List (Entry S))
      → Takes f.queue x rest
      → RoundView f (visit edges is_goal x (record f { queue = rest }))
  unfolding visit
  visit-RoundView f x rest t = elim (Option-cases (lookup x.state f.best)) [
    | inl miss ↦ rw (miss, visit) (unknown x rest t miss)
    | inr (b, hit) ↦
        rw (hit, visit)
          (elim (Bool-cases (eqb x.cost b)) [
            | inr other ↦ rw other (stale x rest b t hit (ground arith))
            | inl same ↦
                let p : lookup x.state f.best ≡ some x.cost = ground arith in
                rw same (elim (Bool-cases (is_goal x.state)) [
                  | inl goal ↦ rw goal (arrived x rest t p goal)
                  | inr inner ↦ rw inner (expanded x rest t p inner)
                ])
          ])
  ]

  pub round-RoundView : (f : Frontier S) → RoundView f (round edges is_goal f)
  unfolding round
  round-RoundView f = elim (Option-cases (heappop f.queue)) [
    | inl empty ↦ rw (empty, round) (exhausted (heappop-empty f.queue empty))
    | inr (popped, p) ↦
        rw (p, round) (visit-RoundView f popped.0 popped.1 (heappop-Takes f.queue p))
  ]

  abbrev pub After : (Frontier S → Type 0) → (Outcome → Type 0) → Round S → Type 0
  After I Q (finish o) = Q o
  After I Q (again f) = I f

  -- What each round keeps holds at the end, if it also allows for too little fuel.
  pub loop_rule :
      (I : Frontier S → Type 0) (Q : Outcome → Type 0)
      → ((f : Frontier S) (r : Round S) → RoundView f r → I f → After I Q r)
      → Q out_of_fuel
      → (fuel : ℕ) (f : Frontier S) → I f
      → Q (loop edges is_goal fuel f)
  unfolding loop
  loop_rule I Q keep dry zero f h = dry
  loop_rule I Q keep dry (suc fuel) f h =
      go (loop_rule I Q keep dry fuel) (round edges is_goal f)
        (keep f (round edges is_goal f) (round-RoundView f) h)
    where
      go :
          ((g : Frontier S) → I g → Q (loop edges is_goal fuel g))
          → (r : Round S) → After I Q r
          → Q (elim r [ finish o ↦ o | again g ↦ loop edges is_goal fuel g ])
      go ih (finish o) q = q
      go ih (again g) i = ih g i
