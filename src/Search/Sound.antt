-- ===== src/Search/Sound.antt =====
-- What the search reports is a walk to a goal state, and it reads no missing key of `best`.
use levelup_bench.Prelude.{
  ℕ, ◌+◌, ◌≡◌, ◌∙◌, ap, refl, String, Bool, true, false, List, [], ◌∷◌, ◌++◌, Eq, ltb, inl, inr, In,
  some, arith, Bool-cases,
}
use levelup_bench.Search.{
  Frontier, Outcome, found, no_completion, key_error, out_of_fuel, Round, unreached, relax,
  relax_all, initial, search_path,
}
use levelup_bench.Search.Best.{lookup, cost_or, lookup-cons_self}
use levelup_bench.Search.Heap.{Entry, Takes}
use levelup_bench.Search.Rounds.{
  RoundView, exhausted, unknown, stale, arrived, expanded, After, loop_rule,
}
use levelup_bench.Search.Invariant.{Lowers, relax-Lowers}
use levelup_bench.Search.Walks.{
  Edge, Walk, walk_cost, aliases, Walk-snoc, Inner, Inner-snoc, walk_cost-append, aliases-append,
}

module _ {S : Type 0} ⦃e : Eq S⦄ (edges : S → List (Edge S)) (is_goal : S → Bool) (start : S) where
  -- There is a walk from the start with this cost and these aliases.
  pub record Reaches (cost : ℕ) (path : List String) (u : S) : Type 0 where
    pub walk : List (Edge S)
    pub walks : Walk edges start walk u
    pub costs : walk_cost walk ≡ cost
    pub spells : aliases walk ≡ path
    pub inner : Inner edges is_goal start walk

  pub record IsSound (f : Frontier S) : Type 0 where
    pub entries : (x : Entry S) → In x f.queue → Reaches x.cost x.path x.state
    pub known : (x : Entry S) → In x f.queue → (b : ℕ) × (lookup x.state f.best ≡ some b)

  Reaches-snoc :
      (cost : ℕ) (path : List String) (u : S) (x : Edge S)
      → Reaches cost path u
      → In x (edges u)
      → is_goal u ≡ false
      → Reaches (cost + x.cost) (path ++ x.alias ∷ []) x.next
  Reaches-snoc cost path u x r m g = record {
    walk = r.walk ++ x ∷ [];
    walks = Walk-snoc edges start u r.walk x r.walks m;
    costs = omega (arith, walk_cost-append r.walk (x ∷ []), r.costs);
    spells = aliases-append r.walk (x ∷ []) ∙ ap (λ p. p ++ x.alias ∷ []) r.spells;
    inner = Inner-snoc edges is_goal start u r.walk x r.walks r.inner g;
  }

  relax-IsSound :
      (cost : ℕ) (path : List String) (u : S) (f : Frontier S) (x : Edge S)
      → Reaches cost path u
      → In x (edges u)
      → is_goal u ≡ false
      → IsSound f
      → IsSound (relax cost path f x)
  unfolding relax
  relax-IsSound cost path u f x r m g h =
      elim (Bool-cases (ltb (cost + x.cost) (cost_or unreached x.next f.best))) [
        | inr dearer ↦ rw dearer h
        | inl cheaper ↦
            let lowers : Lowers f (relax cost path f x) = relax-Lowers cost path f x in
            rw cheaper (record {
              entries = λ z. elim [
                | inl same ↦ rw same (Reaches-snoc cost path u x r m g)
                | inr older ↦ h.entries z older
              ];
              known = λ z. elim [
                | inl same ↦ rw same (cost + x.cost, lookup-cons_self x.next (cost + x.cost) f.best)
                | inr older ↦
                    let (b, k) = h.known z older in
                    let (b', k', _) = (rw cheaper at lowers).recorded z.state b k in (b', k')
              ];
            })
      ]

  relax_all-IsSound :
      (cost : ℕ) (path : List String) (u : S) (f : Frontier S) (xs : List (Edge S))
      → Reaches cost path u
      → ((x : Edge S) → In x xs → In x (edges u))
      → is_goal u ≡ false
      → IsSound f
      → IsSound (relax_all cost path f xs)
  unfolding relax_all
  relax_all-IsSound cost path u f [] r m g h = h
  relax_all-IsSound cost path u f (x ∷ xs) r m g h =
      relax_all-IsSound cost path u (relax cost path f x) xs r (λ y n. m y (inr n)) g
        (relax-IsSound cost path u f x r (m x (inl refl)) g h)

  -- What a sound search may report.
  abbrev pub Reports : Outcome → Type 0
  Reports (found cost path) = (u : S) × Reaches cost path u × (is_goal u ≡ true)
  Reports no_completion = Unit
  Reports key_error = ⊥
  Reports out_of_fuel = Unit

  rest-IsSound :
      (f : Frontier S) (x : Entry S) (rest : List (Entry S))
      → Takes f.queue x rest
      → IsSound f
      → IsSound (record f { queue = rest })
  rest-IsSound f x rest t h = record {
    entries = λ z m. h.entries z (t.rest_from_queue z m);
    known = λ z m. h.known z (t.rest_from_queue z m);
  }

  keeps-IsSound :
      (f : Frontier S) (r : Round S)
      → RoundView edges is_goal f r
      → IsSound f
      → After edges is_goal IsSound Reports r
  keeps-IsSound f _ (exhausted q) h = tt
  keeps-IsSound f _ (unknown x rest t miss) h = let (b, k) = h.known x t.from_queue in cc (k, miss)
  keeps-IsSound f _ (stale x rest b t hit other) h = rest-IsSound f x rest t h
  keeps-IsSound f _ (arrived x rest t hit goal) h = (x.state, h.entries x t.from_queue, goal)
  keeps-IsSound f _ (expanded x rest t hit inner) h =
      relax_all-IsSound x.cost x.path x.state (record f { queue = rest }) (edges x.state)
        (h.entries x t.from_queue) (λ y m. m) inner (rest-IsSound f x rest t h)

  initial-IsSound : IsSound (initial start)
  initial-IsSound = record {
    entries = λ z. elim [
      | inl same ↦
          rw same (record { walk = []; walks = refl; costs = refl; spells = refl; inner = tt })
      | inr none_left ↦ absurd none_left
    ];
    known = λ z. elim [
      | inl same ↦ rw same (0, lookup-cons_self start 0 [])
      | inr none_left ↦ absurd none_left
    ];
  }

  -- Whatever the edges and the fuel, the search reads no missing key of `best`, and a reported path is
  -- that of a walk from the start to a goal state, at the reported cost.
  pub search_path-Reports : (fuel : ℕ) → Reports (search_path edges is_goal fuel start)
  unfolding search_path
  search_path-Reports fuel =
      loop_rule edges is_goal IsSound Reports keeps-IsSound tt fuel (initial start) initial-IsSound
