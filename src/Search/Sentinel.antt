-- ===== src/Search/Sentinel.antt =====
-- The sentinel 10 ** 18 that stands for an unseen state is above every cost that the search keeps.
use levelup_bench.Prelude.{
  ℕ, ◌+◌, ◌≤◌, ◌<◌, String, Bool, List, [], ◌∷◌, Eq, ltb, inl, inr, In, arith, Bool-cases, ltb→lt,
}
use levelup_bench.Search.{
  Frontier, Outcome, found, no_completion, key_error, out_of_fuel, Round, unreached, relax,
  relax_all, initial, search_path,
}
use levelup_bench.Search.Best.{cost_or, cost_or-nil, cost_or-cons_le}
use levelup_bench.Search.Heap.{Entry, Takes}
use levelup_bench.Search.Rounds.{
  RoundView, exhausted, unknown, stale, arrived, expanded, After, loop_rule,
}
use levelup_bench.Search.Walks.{Edge}

module _ {S : Type 0} ⦃e : Eq S⦄ where
  pub record IsCapped (f : Frontier S) : Type 0 where
    pub entries : (x : Entry S) → In x f.queue → x.cost < unreached
    pub recorded : (s : S) → cost_or unreached s f.best ≤ unreached

  relax-IsCapped :
      (cost : ℕ) (path : List String) (f : Frontier S) (x : Edge S)
      → IsCapped f
      → IsCapped (relax cost path f x)
  unfolding relax
  relax-IsCapped cost path f x h =
      elim (Bool-cases (ltb (cost + x.cost) (cost_or unreached x.next f.best))) [
        | inr dearer ↦ rw dearer h
        | inl cheaper ↦
            let lt : cost + x.cost < cost_or unreached x.next f.best = ltb→lt _ _ cheaper in
            rw cheaper (record {
              entries = λ z. elim [
                | inl same ↦ rw same (omega (arith, h.recorded x.next))
                | inr older ↦ h.entries z older
              ];
              recorded = λ s. omega (
                arith,
                cost_or-cons_le unreached s x.next (cost + x.cost) f.best lt,
                h.recorded s,
              );
            })
      ]

  relax_all-IsCapped :
      (cost : ℕ) (path : List String) (f : Frontier S) (xs : List (Edge S))
      → IsCapped f
      → IsCapped (relax_all cost path f xs)
  unfolding relax_all
  relax_all-IsCapped cost path f [] h = h
  relax_all-IsCapped cost path f (x ∷ xs) h =
      relax_all-IsCapped cost path (relax cost path f x) xs (relax-IsCapped cost path f x h)

module _ {S : Type 0} ⦃e : Eq S⦄ (edges : S → List (Edge S)) (is_goal : S → Bool) (start : S) where
  abbrev pub CappedReport : Outcome → Type 0
  CappedReport (found cost path) = cost < unreached
  CappedReport no_completion = Unit
  CappedReport key_error = Unit
  CappedReport out_of_fuel = Unit

  rest-IsCapped :
      (f : Frontier S) (x : Entry S) (rest : List (Entry S))
      → Takes f.queue x rest
      → IsCapped f
      → IsCapped (record f { queue = rest })
  rest-IsCapped f x rest t h = record {
    entries = λ z m. h.entries z (t.rest_from_queue z m);
    recorded = h.recorded;
  }

  keeps-IsCapped :
      (f : Frontier S) (r : Round S)
      → RoundView edges is_goal f r
      → IsCapped f
      → After edges is_goal IsCapped CappedReport r
  keeps-IsCapped f _ (exhausted q) h = tt
  keeps-IsCapped f _ (unknown x rest t miss) h = tt
  keeps-IsCapped f _ (stale x rest b t hit other) h = rest-IsCapped f x rest t h
  keeps-IsCapped f _ (arrived x rest t hit goal) h = h.entries x t.from_queue
  keeps-IsCapped f _ (expanded x rest t hit inner) h =
      relax_all-IsCapped x.cost x.path (record f { queue = rest }) (edges x.state)
        (rest-IsCapped f x rest t h)

  initial-IsCapped : IsCapped (initial start)
  initial-IsCapped = record {
    entries = λ z. elim [ inl same ↦ rw same (omega arith) | inr none_left ↦ absurd none_left ];
    recorded = λ s. omega (
      arith,
      cost_or-nil unreached s,
      cost_or-cons_le unreached s start 0 [] (omega (arith, cost_or-nil unreached start)),
    );
  }

  pub search_path-CappedReport : (fuel : ℕ) → CappedReport (search_path edges is_goal fuel start)
  unfolding search_path
  search_path-CappedReport fuel =
      loop_rule edges is_goal IsCapped CappedReport keeps-IsCapped tt fuel (initial start)
        initial-IsCapped
