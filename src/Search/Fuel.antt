-- ===== src/Search/Fuel.antt =====
-- The search ends. Each push lowers the recorded cost of a state, each round takes an entry from
-- the heap, and where all states lie in a finite list this can go on for so long only.
use levelup_bench.Prelude.{
  ℕ, zero, suc, ◌+◌, ◌*◌, ◌≤◌, ◌<◌, ◌≡◌, ◌≢◌, refl, String, Bool, List, [], ◌∷◌, Eq, ltb, inl, inr,
  In, length, arith, Bool-cases, ltb→lt,
}
use levelup_bench.Search.{
  Frontier, out_of_fuel, Round, finish, again, unreached, relax, relax_all, round, loop, initial,
  search_path,
}
use levelup_bench.Search.Best.{cost_or, cost_or-nil, cost_or-cons_self, cost_or-cons_le}
use levelup_bench.Search.Heap.{Entry}
use levelup_bench.Search.Rounds.{
  RoundView, exhausted, unknown, stale, arrived, expanded, round-RoundView,
}
use levelup_bench.Search.Walks.{Edge}

module _ {S : Type 0} ⦃e : Eq S⦄ where
  -- The recorded costs of the states in a list, added up; an unrecorded one counts as the sentinel.
  total : List S → List (S × ℕ) → ℕ
  total [] best = 0
  total (u ∷ us) best = cost_or unreached u best + total us best

  total-cons_le :
      (us : List S) (t : S) (c : ℕ) (best : List (S × ℕ))
      → c < cost_or unreached t best
      → total us ((t, c) ∷ best) ≤ total us best
  unfolding total
  total-cons_le [] t c best h = omega arith
  total-cons_le (u ∷ us) t c best h =
      omega (arith, cost_or-cons_le unreached u t c best h, total-cons_le us t c best h)

  total-cons_lt :
      (us : List S) (t : S) (c : ℕ) (best : List (S × ℕ))
      → c < cost_or unreached t best
      → In t us
      → total us ((t, c) ∷ best) < total us best
  unfolding total
  total-cons_lt [] t c best h m = absurd m
  total-cons_lt (u ∷ us) t c best h (inl same) =
      rw (← same) (omega (arith, cost_or-cons_self unreached t c best, total-cons_le us t c best h))
  total-cons_lt (u ∷ us) t c best h (inr m) =
      omega (arith, cost_or-cons_le unreached u t c best h, total-cons_lt us t c best h m)

  total-nil : (us : List S) → total us [] ≡ length us * unreached
  unfolding total
  total-nil [] = refl
  total-nil (u ∷ us) = omega (arith, total-nil us, cost_or-nil unreached u)

module _ {S : Type 0} ⦃e : Eq S⦄ (states : List S) (P : S → Type 0)
    (listed : (s : S) → P s → In s states) where
  pub measure : Frontier S → ℕ
  measure f = length f.queue + 2 * total states f.best

  abbrev IsWithin : Frontier S → Type 0
  IsWithin f = (x : Entry S) → In x f.queue → P x.state

  relax-measure :
      (cost : ℕ) (path : List String) (f : Frontier S) (x : Edge S)
      → P x.next
      → measure (relax cost path f x) ≤ measure f
  unfolding relax measure
  relax-measure cost path f x m =
      elim (Bool-cases (ltb (cost + x.cost) (cost_or unreached x.next f.best))) [
        | inl cheaper ↦ rw cheaper (
            omega (
              arith,
              total-cons_lt states x.next (cost + x.cost) f.best (ltb→lt _ _ cheaper)
                  (listed x.next m),
            ))
        | inr dearer ↦ rw dearer (omega arith)
      ]

  relax-IsWithin :
      (cost : ℕ) (path : List String) (f : Frontier S) (x : Edge S)
      → P x.next
      → IsWithin f
      → IsWithin (relax cost path f x)
  unfolding relax
  relax-IsWithin cost path f x m h =
      elim (Bool-cases (ltb (cost + x.cost) (cost_or unreached x.next f.best))) [
        | inl cheaper ↦ rw cheaper (λ z. elim [ inl same ↦ rw same m | inr older ↦ h z older ])
        | inr dearer ↦ rw dearer h
      ]

  relax_all_keeps :
      (cost : ℕ) (path : List String) (f : Frontier S) (xs : List (Edge S))
      → ((x : Edge S) → In x xs → P x.next)
      → IsWithin f
      → (measure (relax_all cost path f xs) ≤ measure f) × IsWithin (relax_all cost path f xs)
  unfolding relax_all
  relax_all_keeps cost path f [] m h = (omega arith, h)
  relax_all_keeps cost path f (x ∷ xs) m h =
      let (le, w) =
        relax_all_keeps cost path (relax cost path f x) xs (λ y n. m y (inr n))
          (relax-IsWithin cost path f x (m x (inl refl)) h) in
      (omega (arith, relax-measure cost path f x (m x (inl refl))), w)

module _ {S : Type 0} ⦃e : Eq S⦄ (edges : S → List (Edge S)) (is_goal : S → Bool) (states : List S)
    (P : S → Type 0) (listed : (s : S) → P s → In s states)
    (leads : (s : S) → P s → (x : Edge S) → In x (edges s) → P x.next) where
  -- A round ends the search by itself, or goes on with a smaller measure.
  abbrev Progress : Frontier S → Round S → Type 0
  Progress f (finish o) = o ≢ out_of_fuel
  Progress f (again g) =
      IsWithin states P listed g × (measure states P listed g < measure states P listed f)

  round-Progress :
      (f : Frontier S) (r : Round S)
      → RoundView edges is_goal f r
      → IsWithin states P listed f
      → Progress f r
  unfolding measure
  round-Progress f _ (exhausted q) h = λ p. cc p
  round-Progress f _ (unknown x rest t miss) h = λ p. cc p
  round-Progress f _ (stale x rest b t hit other) h =
      (λ z m. h z (t.rest_from_queue z m), omega (arith, t.one_fewer))
  round-Progress f _ (arrived x rest t hit goal) h = λ p. cc p
  round-Progress f _ (expanded x rest t hit inner) h =
      let (le, w) =
        relax_all_keeps states P listed x.cost x.path (record f { queue = rest }) (edges x.state)
          (leads x.state (h x t.from_queue)) (λ z m. h z (t.rest_from_queue z m)) in
      (w, omega (arith, t.one_fewer))

  loop-total :
      (fuel : ℕ) (f : Frontier S)
      → measure states P listed f < fuel
      → IsWithin states P listed f
      → loop edges is_goal fuel f ≢ out_of_fuel
  unfolding loop
  loop-total zero f lt h = absurd (omega arith)
  loop-total (suc fuel) f lt h =
      go (loop-total fuel) (round edges is_goal f)
        (round-Progress f (round edges is_goal f) (round-RoundView edges is_goal f) h)
    where
      go :
          ((g : Frontier S)
            → measure states P listed g < fuel
            → IsWithin states P listed g
            → loop edges is_goal fuel g ≢ out_of_fuel)
          → (r : Round S) → Progress f r
          → elim r [ finish o ↦ o | again g ↦ loop edges is_goal fuel g ] ≢ out_of_fuel
      go ih (finish o) q = q
      go ih (again g) (w, less) = ih g (omega arith) w

  -- Fuel above twice the sentinel for each state, and one, is never used up.
  pub search_path-total :
      (fuel : ℕ) (start : S)
      → P start
      → 2 * (length states * unreached) + 1 < fuel
      → search_path edges is_goal fuel start ≢ out_of_fuel
  unfolding search_path measure
  search_path-total fuel start m enough =
      loop-total fuel (initial start)
        (omega (
          arith,
          total-nil states,
          total-cons_le states start 0 [] (omega (arith, cost_or-nil unreached start)),
        ))
        (λ z. elim [ inl same ↦ rw same m | inr none_left ↦ absurd none_left ])
