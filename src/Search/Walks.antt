-- ===== src/Search/Walks.antt =====
-- Walks through the states, as lists of edges.
use levelup_bench.Prelude.{
  ℕ, ◌+◌, ◌≡◌, refl, String, Bool, false, List, [], ◌∷◌, ◌++◌, In, arith, ap,
}

-- What the loop's body makes of one action: its alias, the next state, the perceived cost.
pub record Edge (S : Type 0) : Type 0 where
  pub alias : String
  pub next : S
  pub cost : ℕ

module _ {S : Type 0} (edges : S → List (Edge S)) where
  abbrev pub Walk : S → List (Edge S) → S → Type 0
  Walk s [] u = s ≡ u
  Walk s (x ∷ w) u = In x (edges s) × Walk x.next w u

  pub Walk-snoc :
      (s t : S) (w : List (Edge S)) (x : Edge S)
      → Walk s w t
      → In x (edges t)
      → Walk s (w ++ x ∷ []) x.next
  Walk-snoc s t [] x h m = (rw h m, refl)
  Walk-snoc s t (y ∷ w) x h m = (h.0, Walk-snoc y.next t w x h.1 m)

module _ {S : Type 0} (edges : S → List (Edge S)) (is_goal : S → Bool) where
  -- No state that the walk leaves is a goal.
  abbrev pub Inner : S → List (Edge S) → Type 0
  Inner s [] = Unit
  Inner s (x ∷ w) = (is_goal s ≡ false) × Inner x.next w

  pub Inner-snoc :
      (s t : S) (w : List (Edge S)) (x : Edge S)
      → Walk edges s w t
      → Inner s w
      → is_goal t ≡ false
      → Inner s (w ++ x ∷ [])
  Inner-snoc s t [] x h i g = (rw h g, tt)
  Inner-snoc s t (y ∷ w) x h i g = (i.0, Inner-snoc y.next t w x h.1 i.1 g)

module _ {S : Type 0} where
  abbrev pub walk_cost : List (Edge S) → ℕ
  walk_cost [] = 0
  walk_cost (x ∷ w) = x.cost + walk_cost w

  abbrev pub aliases : List (Edge S) → List String
  aliases [] = []
  aliases (x ∷ w) = x.alias ∷ aliases w

  pub walk_cost-append : (v w : List (Edge S)) → walk_cost (v ++ w) ≡ walk_cost v + walk_cost w
  walk_cost-append [] w = omega arith
  walk_cost-append (x ∷ v) w = omega (arith, walk_cost-append v w)

  pub aliases-append : (v w : List (Edge S)) → aliases (v ++ w) ≡ aliases v ++ aliases w
  aliases-append [] w = refl
  aliases-append (x ∷ v) w = ap (◌∷◌ x.alias) (aliases-append v w)
