-- ===== src/Search/Optimal.antt =====
-- No walk to a goal state is cheaper than what the search reports, and it reports that there is
-- none only if no walk costs less than the sentinel `unreached`.
use levelup_bench.Prelude.{
  ℕ, ◌+◌, ◌≤◌, ◌<◌, ◌≡◌, ◌≢◌, ◌∙◌, sym, ap, refl, String, Bool, true, false, List, [], ◌∷◌, Eq, ltb,
  ◌⊎◌, inl, inr, In, subst, some, arith, Bool-cases, ltb→lt,
}
use levelup_bench.Search.{
  Frontier, Outcome, found, no_completion, key_error, out_of_fuel, Round, unreached, relax,
  relax_all, initial, search_path,
}
use levelup_bench.Search.Best.{
  lookup, cost_or, lookup-cons_self, lookup-nil, lookup-cons_cases, lookup_of_cost_or-lt,
  cost_or-some,
}
use levelup_bench.Search.Heap.{Entry, Takes}
use levelup_bench.Search.Rounds.{
  RoundView, exhausted, unknown, stale, arrived, expanded, After, loop_rule,
}
use levelup_bench.Search.Invariant.{Lowers, relax-Lowers, relax_all-Lowers}
use levelup_bench.Search.Walks.{Edge, Walk, walk_cost}

module _ {S : Type 0} ⦃e : Eq S⦄ where
  -- The edge has been followed from a state of cost `k`.
  abbrev IsFollowed : ℕ → Frontier S → Edge S → Type 0
  IsFollowed k f x =
      k + x.cost < unreached → (b : ℕ) × (lookup x.next f.best ≡ some b) × (b ≤ k + x.cost)

  -- The recorded cost of the state stands in the heap.
  abbrev IsQueued : S → ℕ → Frontier S → Type 0
  IsQueued u k f = (x : Entry S) × In x f.queue × (x.cost ≡ k) × (x.state ≡ u)

  IsFollowed-Lowers :
      (k : ℕ) {f g : Frontier S} (x : Edge S) → Lowers f g → IsFollowed k f x → IsFollowed k g x
  IsFollowed-Lowers k x l h lt =
      let (b, p, le) = h lt in let (b', p', le') = l.recorded x.next b p in (b', p', omega arith)

  IsQueued-Lowers :
      (u : S) (k : ℕ) {f g : Frontier S} → Lowers f g → IsQueued u k f → IsQueued u k g
  IsQueued-Lowers u k l (x, m, c, s) = (x, l.queued x m, c, s)

  relax-IsFollowed :
      (k : ℕ) (path : List String) (f : Frontier S) (x : Edge S) → IsFollowed k (relax k path f x) x
  unfolding relax
  relax-IsFollowed k path f x lt =
      elim (Bool-cases (ltb (k + x.cost) (cost_or unreached x.next f.best))) [
        | inl cheaper ↦
            rw cheaper (k + x.cost, lookup-cons_self x.next (k + x.cost) f.best, omega arith)
        | inr dearer ↦
            let low : cost_or unreached x.next f.best ≤ k + x.cost = ground arith in
            rw dearer (
              cost_or unreached x.next f.best,
              lookup_of_cost_or-lt unreached x.next f.best (omega arith),
              low,
            )
      ]

  -- A state of cost `k` keeps that cost while its own edges are followed.
  relax_own :
      (k : ℕ) (path : List String) (u : S) (f : Frontier S) (x : Edge S)
      → lookup u f.best ≡ some k
      → lookup u (relax k path f x).best ≡ some k
  unfolding relax
  relax_own k path u f x h =
      elim (Bool-cases (ltb (k + x.cost) (cost_or unreached x.next f.best))) [
        | inl cheaper ↦ rw cheaper (elim (lookup-cons_cases u x.next (k + x.cost) f.best) [
          | inl (same, q) ↦
              let low : cost_or unreached x.next f.best ≡ k =
                cost_or-some unreached x.next f.best (rw same h) in
              absurd (omega (arith, ltb→lt _ _ cheaper))
          | inr q ↦ q ∙ h
        ])
        | inr dearer ↦ rw dearer h
      ]

  relax_all-IsFollowed :
      (k : ℕ) (path : List String) (f : Frontier S) (xs : List (Edge S)) (x : Edge S)
      → In x xs
      → IsFollowed k (relax_all k path f xs) x
  unfolding relax_all
  relax_all-IsFollowed k path f [] x m = absurd m
  relax_all-IsFollowed k path f (y ∷ ys) x (inl same) =
      IsFollowed-Lowers k x (relax_all-Lowers k path (relax k path f y) ys)
        (rw same (relax-IsFollowed k path f y))
  relax_all-IsFollowed k path f (y ∷ ys) x (inr m) =
      relax_all-IsFollowed k path (relax k path f y) ys x m

module _ {S : Type 0} ⦃e : Eq S⦄ (edges : S → List (Edge S)) (is_goal : S → Bool) where
  -- A recorded state waits in the heap, or is no goal and has had its edges followed.
  abbrev Covered : S → ℕ → Frontier S → Type 0
  Covered u k f =
      IsQueued u k f ⊎ ((is_goal u ≡ false) × ((x : Edge S) → In x (edges u) → IsFollowed k f x))

  -- So is every recorded state but one, whose edges are being followed.
  abbrev CoveredBut : S → ℕ → Frontier S → Type 0
  CoveredBut v kv f =
      (u : S) (k : ℕ) → lookup u f.best ≡ some k → Covered u k f ⊎ ((u ≡ v) × (k ≡ kv))

  Covered-Lowers : (u : S) (k : ℕ) {f g : Frontier S} → Lowers f g → Covered u k f → Covered u k g
  Covered-Lowers u k l (inl q) = inl (IsQueued-Lowers u k l q)
  Covered-Lowers u k l (inr (inner, follows)) =
      inr (inner, λ x m. IsFollowed-Lowers k x l (follows x m))

  CoveredBut-Lowers :
      (v : S) (kv : ℕ) (u : S) (k : ℕ) {f g : Frontier S}
      → Lowers f g
      → Covered u k f ⊎ ((u ≡ v) × (k ≡ kv))
      → Covered u k g ⊎ ((u ≡ v) × (k ≡ kv))
  CoveredBut-Lowers v kv u k l (inl c) = inl (Covered-Lowers u k l c)
  CoveredBut-Lowers v kv u k l (inr own) = inr own

  relax-CoveredBut :
      (v : S) (kv : ℕ) (path : List String) (f : Frontier S) (x : Edge S)
      → CoveredBut v kv f
      → CoveredBut v kv (relax kv path f x)
  unfolding relax
  relax-CoveredBut v kv path f x h =
      let l : Lowers f (relax kv path f x) = relax-Lowers kv path f x in
      elim (Bool-cases (ltb (kv + x.cost) (cost_or unreached x.next f.best))) [
        | inr dearer ↦ rw dearer h
        | inl cheaper ↦ rw cheaper (λ u k p.
            elim (lookup-cons_cases u x.next (kv + x.cost) f.best) [
              | inl (same, q) ↦
                  let c : kv + x.cost ≡ k = cc (p, q) in inl (inl (_, inl refl, c, same))
              | inr q ↦ CoveredBut-Lowers v kv u k (rw cheaper at l) (h u k (sym q ∙ p))
            ])
      ]

  relax_all-CoveredBut :
      (v : S) (kv : ℕ) (path : List String) (f : Frontier S) (xs : List (Edge S))
      → CoveredBut v kv f
      → CoveredBut v kv (relax_all kv path f xs)
  unfolding relax_all
  relax_all-CoveredBut v kv path f [] h = h
  relax_all-CoveredBut v kv path f (x ∷ xs) h =
      relax_all-CoveredBut v kv path (relax kv path f x) xs (relax-CoveredBut v kv path f x h)

module _ {S : Type 0} ⦃e : Eq S⦄ (edges : S → List (Edge S)) (is_goal : S → Bool) (start : S) where
  -- Every recorded state is dealt with or waiting, and the start was recorded at no cost.
  pub record IsClosed (f : Frontier S) : Type 0 where
    covers : (u : S) (k : ℕ) → lookup u f.best ≡ some k → Covered edges is_goal u k f
    begins : lookup start f.best ≡ some 0

  -- A walk from a recorded state to a goal passes a state that waits in the heap, at no more
  -- than the cost by which the walk reaches the goal.
  waits :
      (f : Frontier S)
      → IsClosed f
      → (s : S) (b : ℕ) (w : List (Edge S)) (u : S) → lookup s f.best ≡ some b
      → Walk edges s w u
      → is_goal u ≡ true
      → b + walk_cost w < unreached
      → (x : Entry S) × In x f.queue × (x.cost ≤ b + walk_cost w)
  waits f h s b [] u k walk goal lt = elim (h.covers s b k) [
    | inl (x, m, c, _) ↦ (x, m, omega arith)
    | inr (inner, _) ↦ absurd (cc (ap is_goal walk))
  ]
  waits f h s b (y ∷ w) u k walk goal lt = elim (h.covers s b k) [
    | inl (x, m, c, _) ↦ (x, m, omega arith)
    | inr (inner, follows) ↦
        let (b', p, le) = follows y walk.0 (omega arith) in
        let (x, m, c) = waits f h y.next b' w u p walk.1 goal (omega arith) in (x, m, omega arith)
  ]

  -- What the report says of every walk to a goal that costs less than the sentinel.
  abbrev pub BestReport : Outcome → Type 0
  BestReport (found cost path) =
      (w : List (Edge S)) (u : S)
      → Walk edges start w u
      → is_goal u ≡ true
      → walk_cost w < unreached
      → cost ≤ walk_cost w
  BestReport no_completion =
      (w : List (Edge S)) (u : S)
      → Walk edges start w u
      → is_goal u ≡ true
      → unreached ≤ walk_cost w
  BestReport key_error = Unit
  BestReport out_of_fuel = Unit

  stale-IsClosed :
      (f : Frontier S) (x : Entry S) (rest : List (Entry S)) (b : ℕ)
      → Takes f.queue x rest
      → lookup x.state f.best ≡ some b
      → x.cost ≢ b
      → IsClosed f
      → IsClosed (record f { queue = rest })
  stale-IsClosed f x rest b t hit other h = record {
    covers = λ u k p. elim (h.covers u k p) [
      | inl (y, m, c, s) ↦ elim (t.keeps y m) [
        | inl same ↦ absurd (
            other (
              cc (
                hit,
                p,
                c,
                s,
                ap (λ (z : Entry S). z.cost) same,
                ap (λ (z : Entry S). z.state) same,
              )))
        | inr left ↦ inl (y, left, c, s)
      ]
      | inr done ↦ inr done
    ];
    begins = h.begins;
  }

  popped-CoveredBut :
      (f : Frontier S) (x : Entry S) (rest : List (Entry S))
      → Takes f.queue x rest
      → IsClosed f
      → CoveredBut edges is_goal x.state x.cost (record f { queue = rest })
  popped-CoveredBut f x rest t h u k p = elim (h.covers u k p) [
    | inl (y, m, c, s) ↦ elim (t.keeps y m) [
      | inl same ↦
          inr
            (sym s ∙ ap (λ (z : Entry S). z.state) same, sym c ∙ ap (λ (z : Entry S). z.cost) same)
      | inr left ↦ inl (inl (y, left, c, s))
    ]
    | inr done ↦ inl (inr done)
  ]

  expanded-IsClosed :
      (f : Frontier S) (x : Entry S) (rest : List (Entry S))
      → Takes f.queue x rest
      → lookup x.state f.best ≡ some x.cost
      → is_goal x.state ≡ false
      → IsClosed f
      → IsClosed (relax_all x.cost x.path (record f { queue = rest }) (edges x.state))
  expanded-IsClosed f x rest t hit inner h =
      let f' : Frontier S = record f { queue = rest } in
      record {
        covers = λ u k p.
            elim (relax_all-CoveredBut edges is_goal x.state x.cost x.path f' (edges x.state)
              (popped-CoveredBut f x rest t h) u k p) [
                | inl c ↦ c
                | inr (su, sk) ↦ inr (
                  ap is_goal su ∙ inner,
                  λ y m.
                      rw sk (relax_all-IsFollowed x.cost x.path f' (edges x.state) y (rw su at m)),
                )
              ];
        begins =
            let (b', q, le) =
              (relax_all-Lowers x.cost x.path f' (edges x.state)).recorded start 0 h.begins in
            let zero_cost : b' ≡ 0 = omega arith in q ∙ ap some zero_cost;
      }

  keeps-IsClosed :
      (f : Frontier S) (r : Round S)
      → RoundView edges is_goal f r
      → IsClosed f
      → After edges is_goal IsClosed BestReport r
  keeps-IsClosed f _ (exhausted q) h = λ w u walk g.
      elim (Bool-cases (ltb (walk_cost w) unreached)) [
        | inl cheap ↦
            let (y, m, c) = waits f h start 0 w u h.begins walk g (ground arith) in
            absurd (subst (In y) q m)
        | inr dear ↦ ground arith
      ]
  keeps-IsClosed f _ (unknown x rest t miss) h = tt
  keeps-IsClosed f _ (stale x rest b t hit other) h = stale-IsClosed f x rest b t hit other h
  keeps-IsClosed f _ (arrived x rest t hit goal) h = λ w u walk g lt.
      let (y, m, c) = waits f h start 0 w u h.begins walk g (omega arith) in
      omega (arith, t.least_le y m)
  keeps-IsClosed f _ (expanded x rest t hit inner) h = expanded-IsClosed f x rest t hit inner h

  initial-IsClosed : IsClosed (initial start)
  initial-IsClosed = record {
    covers = λ u k p. elim (lookup-cons_cases u start 0 []) [
      | inl (same, q) ↦ let c : 0 ≡ k = cc (p, q) in inl (_, inl refl, c, same)
      | inr q ↦ absurd (lookup-nil u (sym q ∙ p))
    ];
    begins = lookup-cons_self start 0 [];
  }

  -- Whatever the edges and the fuel, a reported cost is at most that of every walk to a goal that costs
  -- less than 10 ** 18, and no completion is reported only when every walk to a goal costs at least
  -- that.
  pub search_path-BestReport : (fuel : ℕ) → BestReport (search_path edges is_goal fuel start)
  unfolding search_path
  search_path-BestReport fuel =
      loop_rule edges is_goal IsClosed BestReport keeps-IsClosed tt fuel (initial start)
        initial-IsClosed
