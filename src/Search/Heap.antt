-- ===== src/Search/Heap.antt =====
-- The heap of `heapq`: the entries in any order, and `heappop`, which takes the least one.
use levelup_bench.Prelude.{
  ℕ, suc, ◌≤◌, ◌≡◌, refl, String, Bool, List, [], ◌∷◌, Option, none, some, ltb, eqb, ◌&&◌, ◌||◌,
  if◌then◌else◌, In, inl, inr, ◌⊎◌, arith, length, subst, sym, ap,
}

-- The tuples `(cost, counter, state, path)`.
pub record Entry (S : Type 0) : Type 0 where
  pub cost : ℕ
  pub counter : ℕ
  pub state : S
  pub path : List String

module _ {S : Type 0} where
  -- The order of tuples. The counters of two entries differ, so it is decided by the first two
  -- fields.
  abbrev earlier : Entry S → Entry S → Bool
  earlier x y = ltb x.cost y.cost || (eqb x.cost y.cost && ltb x.counter y.counter)

  -- The least of an entry and the others, and what is left.
  unfoldable pub take_least : Entry S → List (Entry S) → Entry S × List (Entry S)
  take_least x [] = (x, [])
  take_least x (y ∷ ys) =
      let (least, rest) = take_least (if earlier y x then y else x) ys in
      (least, (if earlier y x then x else y) ∷ rest)

  unfoldable pub heappop : List (Entry S) → Option (Entry S × List (Entry S))
  unfolding take_least
  heappop [] = none
  heappop (x ∷ xs) = some (take_least x xs)

  -- Taking the least entry keeps every other one, and adds none.
  take_least-keeps :
      (x : Entry S) (ys : List (Entry S)) (z : Entry S)
      → In z (x ∷ ys)
      → (z ≡ (take_least x ys).0) ⊎ In z (take_least x ys).1
  unfolding take_least
  take_least-keeps x [] z m = m
  take_least-keeps x (y ∷ ys) z m = ground (arith, take_least-keeps y ys z, take_least-keeps x ys z)

  take_least-In :
      (x : Entry S) (ys : List (Entry S)) (z : Entry S)
      → (z ≡ (take_least x ys).0) ⊎ In z (take_least x ys).1
      → In z (x ∷ ys)
  unfolding take_least
  take_least-In x [] z m = m
  take_least-In x (y ∷ ys) z m = ground (arith, take_least-In y ys z, take_least-In x ys z)

  length-take_least : (x : Entry S) (ys : List (Entry S)) → length (take_least x ys).1 ≡ length ys
  unfolding take_least
  length-take_least x [] = refl
  length-take_least x (y ∷ ys) = ap suc (length-take_least (if earlier y x then y else x) ys)

  take_least-le :
      (x : Entry S) (ys : List (Entry S)) (z : Entry S)
      → In z (x ∷ ys)
      → (take_least x ys).0.cost ≤ z.cost
  unfolding take_least
  take_least-le x [] z m = ground arith
  take_least-le x (y ∷ ys) z m = ground (
    arith,
    take_least-le y ys z,
    take_least-le x ys z,
    take_least-le y ys y,
    take_least-le x ys x,
  )

  -- What taking an entry from a heap does to it.
  pub record Takes (queue : List (Entry S)) (least : Entry S) (rest : List (Entry S)) : Type 0 where
    pub keeps : (z : Entry S) → In z queue → (z ≡ least) ⊎ In z rest
    pub from_queue : In least queue
    pub rest_from_queue : (z : Entry S) → In z rest → In z queue
    pub least_le : (z : Entry S) → In z queue → least.cost ≤ z.cost
    pub one_fewer : length queue ≡ suc (length rest)

  pub heappop-Takes :
      (queue : List (Entry S)) {least : Entry S} {rest : List (Entry S)}
      → heappop queue ≡ some (least, rest)
      → Takes queue least rest
  unfolding heappop
  heappop-Takes [] h = cc
  heappop-Takes (x ∷ xs) h =
      subst
        (λ (p : Option (Entry S × List (Entry S))). elim p [
          | none ↦ Unit
          | some (l, r) ↦ Takes (x ∷ xs) l r
        ])
        h
        (record {
          keeps = take_least-keeps x xs;
          from_queue = take_least-In x xs _ (inl refl);
          rest_from_queue = λ z m. take_least-In x xs z (inr m);
          least_le = take_least-le x xs;
          one_fewer = ap suc (sym (length-take_least x xs));
        })

  pub heappop-empty : (queue : List (Entry S)) → heappop queue ≡ none → queue ≡ []
  unfolding heappop
  heappop-empty [] h = refl
  heappop-empty (x ∷ xs) h = cc
