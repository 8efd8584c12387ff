-- ===== src/Search/Best.antt =====
-- The dict `best`: the cost by which each state was last reached.
use levelup_bench.Prelude.{
  ℕ, ◌∙◌, ◌≤◌, ◌<◌, ◌≡◌, ◌≢◌, refl, List, [], ◌∷◌, Option, none, some, Eq, ◌==◌, arith, inl, inr,
  ◌⊎◌, Bool-cases, ==→≡, ==_refl, if◌then◌else◌,
}

abbrev value_or : ℕ → Option ℕ → ℕ
value_or default none = default
value_or default (some c) = c

module _ {S : Type 0} ⦃e : Eq S⦄ where
  -- The latest assignment stands first.
  unfoldable pub lookup : S → List (S × ℕ) → Option ℕ
  lookup s [] = none
  lookup s ((t, c) ∷ best) = if t == s then some c else lookup s best

  -- `best.get(s, default)`
  unfoldable pub cost_or : ℕ → S → List (S × ℕ) → ℕ
  cost_or default s best = value_or default (lookup s best)

  pub lookup-nil : (s : S) {c : ℕ} → lookup s [] ≢ some c
  unfolding lookup
  lookup-nil s h = cc

  pub lookup-cons_self : (s : S) (c : ℕ) (best : List (S × ℕ)) → lookup s ((s, c) ∷ best) ≡ some c
  unfolding lookup
  lookup-cons_self s c best = rw ==_refl

  -- An assignment is read back at its own key, and leaves the other keys alone.
  pub lookup-cons_cases :
      (s t : S) (c : ℕ) (best : List (S × ℕ))
      → ((t ≡ s) × (lookup s ((t, c) ∷ best) ≡ some c)) ⊎ (lookup s ((t, c) ∷ best) ≡ lookup s best)
  unfolding lookup
  lookup-cons_cases s t c best = elim (Bool-cases (t == s)) [
    | inl same ↦ inl (==→≡ same, rw same)
    | inr other ↦ inr (rw other)
  ]

  pub cost_or-nil : (d : ℕ) (s : S) → cost_or d s [] ≡ d
  unfolding cost_or lookup
  cost_or-nil d s = refl

  pub cost_or-some :
      (d : ℕ) (s : S) (best : List (S × ℕ)) {c : ℕ} → lookup s best ≡ some c → cost_or d s best ≡ c
  unfolding cost_or
  cost_or-some d s best h = rw h

  -- Below the default, the cost is a recorded one.
  pub lookup_of_cost_or-lt :
      (d : ℕ) (s : S) (best : List (S × ℕ))
      → cost_or d s best < d
      → lookup s best ≡ some (cost_or d s best)
  unfolding cost_or
  lookup_of_cost_or-lt d s best h = ground arith

  pub cost_or-cons_self :
      (d : ℕ) (s : S) (c : ℕ) (best : List (S × ℕ)) → cost_or d s ((s, c) ∷ best) ≡ c
  cost_or-cons_self d s c best = cost_or-some d s _ (lookup-cons_self s c best)

  -- A cheaper assignment raises no state's cost.
  pub cost_or-cons_le :
      (d : ℕ) (s t : S) (c : ℕ) (best : List (S × ℕ))
      → c < cost_or d t best
      → cost_or d s ((t, c) ∷ best) ≤ cost_or d s best
  unfolding cost_or
  cost_or-cons_le d s t c best h = elim (lookup-cons_cases s t c best) [
    | inl (p, q) ↦ rw q (let k : c < cost_or d s best = rw p at h in omega arith)
    | inr q ↦ rw q (omega arith)
  ]

  -- What is recorded stays recorded, at the same cost or a lower one.
  pub lookup-cons_le :
      (s t : S) (c b d : ℕ) (best : List (S × ℕ))
      → c < cost_or d t best
      → lookup s best ≡ some b
      → (b' : ℕ) × (lookup s ((t, c) ∷ best) ≡ some b') × (b' ≤ b)
  lookup-cons_le s t c b d best h k = elim (lookup-cons_cases s t c best) [
    | inl (p, q) ↦
        let h' : c < cost_or d s best = rw p at h in (c, q, omega (arith, cost_or-some d s best k))
    | inr q ↦ (b, q ∙ k, omega arith)
  ]
