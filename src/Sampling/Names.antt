-- ===== src/Sampling/Names.antt =====
-- Names that differ, and a target that is tall enough, pass the constructors' checks.
use levelup_bench.Prelude.{
  ℕ, ◌≤◌, ◌≡◌, String, false, List, [], ◌∷◌, inl, inr, IsUnique, string_eq, ltb, arith,
}
use levelup_bench.Sampling.{Aliases}

-- The five names.
abbrev pub listed : Aliases → List String
listed names = names.step ∷ names.stride ∷ names.burst ∷ names.utility ∷ names.override ∷ []

-- The plain family makes no action of the fourth name.
abbrev pub four : Aliases → List String
four names = names.step ∷ names.stride ∷ names.burst ∷ names.override ∷ []

pub four-IsUnique : (names : Aliases) → IsUnique (listed names) → IsUnique (four names)
four-IsUnique names u = (
  λ m. u.0 (elim m [
    | inl p ↦ inl p
    | inr rest ↦ inr (elim rest [ inl p ↦ inl p | inr q ↦ inr (inr q) ])
  ]),
  (
    λ m. u.1.0 (elim m [ inl p ↦ inl p | inr q ↦ inr (inr q) ]),
    ((λ m. u.1.1.0 (inr m)), u.1.1.1.1),
  ),
)

pub not-ltb : (a b : ℕ) → b ≤ a → ltb a b ≡ false
not-ltb a b h = ground arith
