-- ===== src/Search/Invariant.antt =====
-- What every round of the search keeps.
use levelup_bench.Prelude.{
  ℕ, ◌+◌, ◌≤◌, ◌≡◌, String, List, [], ◌∷◌, Eq, ltb, inl, inr, In, some, arith, Bool-cases, ltb→lt,
}
use levelup_bench.Search.{Frontier, unreached, relax, relax_all}
use levelup_bench.Search.Best.{lookup, cost_or, lookup-cons_le}
use levelup_bench.Search.Heap.{Entry}
use levelup_bench.Search.Walks.{Edge}

module _ {S : Type 0} ⦃e : Eq S⦄ where
  -- No recorded cost rises, and no entry of the heap is lost.
  pub record Lowers (f g : Frontier S) : Type 0 where
    pub recorded :
        (s : S) (b : ℕ)
        → lookup s f.best ≡ some b
        → (b' : ℕ) × (lookup s g.best ≡ some b') × (b' ≤ b)
    pub queued : (x : Entry S) → In x f.queue → In x g.queue

  pub Lowers-refl : (f : Frontier S) → Lowers f f
  Lowers-refl f = record { recorded = λ s b h. (b, h, omega arith); queued = λ x m. m }

  pub Lowers-trans : {f g h : Frontier S} → Lowers f g → Lowers g h → Lowers f h
  Lowers-trans p q = record {
    recorded = λ s b k.
        let (b', k', le) = p.recorded s b k in
        let (b'', k'', le') = q.recorded s b' k' in (b'', k'', omega arith);
    queued = λ x m. q.queued x (p.queued x m);
  }

  pub relax-Lowers :
      (cost : ℕ) (path : List String) (f : Frontier S) (x : Edge S) → Lowers f (relax cost path f x)
  unfolding relax
  relax-Lowers cost path f x =
      elim (Bool-cases (ltb (cost + x.cost) (cost_or unreached x.next f.best))) [
        | inl cheaper ↦ rw cheaper (record {
          recorded = λ s b h.
              lookup-cons_le s x.next (cost + x.cost) b unreached f.best (ltb→lt _ _ cheaper) h;
          queued = λ z m. inr m;
        })
        | inr dearer ↦ rw dearer (Lowers-refl f)
      ]

  pub relax_all-Lowers :
      (cost : ℕ) (path : List String) (f : Frontier S) (xs : List (Edge S))
      → Lowers f (relax_all cost path f xs)
  unfolding relax_all
  relax_all-Lowers cost path f [] = Lowers-refl f
  relax_all-Lowers cost path f (x ∷ xs) =
      Lowers-trans (relax-Lowers cost path f x)
        (relax_all-Lowers cost path (relax cost path f x) xs)
