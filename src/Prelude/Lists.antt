-- ===== src/Prelude/Lists.antt =====
-- Lists: membership and predicates by recursion, sums, and Python's list operations.
use Prim.Native.Nat.{ℕ, suc, ◌+◌, ◌≤◌}
use mathlib.Core.Path.{◌≡◌, ◌∙◌, refl, ap, sym}
use mathlib.Core.Logic.{◌⊎◌, ◌↔◌, inl, inr}
use mathlib.Core.Bool.{Bool, true, false, ◌||◌}
use mathlib.Core.Option.{Option, none, some}
use mathlib.Core.List.{List, [], ◌∷◌, ◌++◌}
use native.Mathlib.Omega.{arith}
use levelup_bench.Prelude.Tests.{Eq, ◌==◌, Bool-cases, Option-cases, if◌then◌else◌}

module _ {ℓ} {A : Type ℓ} where
  abbrev pub length : List A → ℕ
  length [] = 0
  length (x ∷ xs) = suc (length xs)

  pub length-append : (xs ys : List A) → length (xs ++ ys) ≡ length xs + length ys
  length-append [] ys = omega arith
  length-append (x ∷ xs) ys = omega (arith, length-append xs ys)

module _ {A : Type 0} where
  -- `a` stands in the list.
  abbrev pub In : A → List A → Type 0
  In a [] = ⊥
  In a (x ∷ xs) = (a ≡ x) ⊎ In a xs

  abbrev pub All {κ} : (A → Type κ) → List A → Type κ
  All P [] = Unit
  All P (x ∷ xs) = P x × All P xs

  pub All-In {κ} : (P : A → Type κ) (xs : List A) {a : A} → All P xs → In a xs → P a
  All-In P [] h m = absurd m
  All-In P (x ∷ xs) {a} h (inl e) = rw e h.0
  All-In P (x ∷ xs) h (inr m) = All-In P xs h.1 m

  pub All-of_In {κ} : (P : A → Type κ) (xs : List A) → ((a : A) → In a xs → P a) → All P xs
  All-of_In P [] h = tt
  All-of_In P (x ∷ xs) h = (h x (inl refl), All-of_In P xs (λ a m. h a (inr m)))

  pub In-append_left : (xs ys : List A) (a : A) → In a xs → In a (xs ++ ys)
  In-append_left [] ys a m = absurd m
  In-append_left (x ∷ xs) ys a (inl e) = inl e
  In-append_left (x ∷ xs) ys a (inr m) = inr (In-append_left xs ys a m)

  pub In-append_right : (xs ys : List A) (a : A) → In a ys → In a (xs ++ ys)
  In-append_right [] ys a m = m
  In-append_right (x ∷ xs) ys a m = inr (In-append_right xs ys a m)

  -- `filter` with a Boolean test, as in a comprehension's `if`.
  abbrev pub select : (A → Bool) → List A → List A
  select p [] = []
  select p (x ∷ xs) = let rest = select p xs in if p x then x ∷ rest else rest

  pub In-select : (p : A → Bool) (xs : List A) (a : A) → In a (select p xs) → In a xs × (p a ≡ true)
  In-select p [] a m = absurd m
  In-select p (x ∷ xs) a m = grind (arith, In-select p xs a)

  pub In-select_of :
      (p : A → Bool) (xs : List A) (a : A) → In a xs → p a ≡ true → In a (select p xs)
  In-select_of p [] a m h = absurd m
  In-select_of p (x ∷ xs) a (inl same) h = rw (← same) (rw h (inl refl))
  In-select_of p (x ∷ xs) a (inr m) h = elim (Bool-cases (p x)) [
    | inl kept ↦ rw kept (inr (In-select_of p xs a m h))
    | inr dropped ↦ rw dropped (In-select_of p xs a m h)
  ]

-- A loop that appends what its body makes of each element, where `none` is a `continue`.
module _ {A B : Type 0} (f : A → Option B) where
  unfoldable pub collect : List A → List B
  collect [] = []
  collect (x ∷ xs) = let rest = collect xs in elim (f x) [ none ↦ rest | some y ↦ y ∷ rest ]

  pub In-collect : (xs : List A) (b : B) → In b (collect xs) → (a : A) × In a xs × (f a ≡ some b)
  unfolding collect
  In-collect [] b m = absurd m
  In-collect (x ∷ xs) b m = elim (Option-cases (f x)) [
    | inl skipped ↦ let (a, n, h) = In-collect xs b (rw (skipped, collect) at m) in (a, inr n, h)
    | inr (y, made) ↦ elim (let m' : (b ≡ y) ⊎ In b (collect xs) = rw (made, collect) at m in m') [
      | inl same ↦ (x, inl refl, made ∙ ap some (sym same))
      | inr older ↦ (let (a, n, h) = In-collect xs b older in (a, inr n, h))
    ]
  ]

  pub collect-In : (xs : List A) (a : A) (b : B) → In a xs → f a ≡ some b → In b (collect xs)
  unfolding collect
  collect-In [] a b m h = absurd m
  collect-In (x ∷ xs) a b (inl same) h =
      let made : f x ≡ some b = rw (← same) h in rw (made, collect) (inl refl)
  collect-In (x ∷ xs) a b (inr m) h = elim (Option-cases (f x)) [
    | inl skipped ↦ rw (skipped, collect) (collect-In xs a b m h)
    | inr (y, made) ↦ rw (made, collect) (inr (collect-In xs a b m h))
  ]

pub sum : List ℕ → ℕ
sum [] = 0
sum (n ∷ ns) = n + sum ns

module _ {A : Type 0} ⦃e : Eq A⦄ where
  -- `a in xs`
  unfoldable pub contains : A → List A → Bool
  contains a [] = false
  contains a (x ∷ xs) = a == x || contains a xs

  -- The elements of `set(xs)`, in order of their last occurrence.
  unfoldable pub to_set : List A → List A
  to_set [] = []
  to_set (x ∷ xs) = if contains x xs then to_set xs else x ∷ to_set xs

  pub to_set-le : (xs : List A) → length (to_set xs) ≤ length xs
  unfolding to_set
  to_set-le [] = omega arith
  to_set-le (x ∷ xs) = ground (arith, to_set-le xs)

  pub contains_iff : (a : A) (xs : List A) → (contains a xs ≡ true) ↔ In a xs
  unfolding contains
  contains_iff a [] = (λ h. cc h, λ m. absurd m)
  contains_iff a (x ∷ xs) = ground (arith, e.beq_iff a x, contains_iff a xs)

  pub not-In_of_contains : (a : A) (xs : List A) → contains a xs ≡ false → ¬ In a xs
  not-In_of_contains a xs h m = cc (h, (contains_iff a xs).1 m)

  -- No element of the list stands in it twice.
  abbrev pub IsUnique : List A → Type 0
  IsUnique [] = Unit
  IsUnique (x ∷ xs) = (¬ In x xs) × IsUnique xs

  -- The lengths of a list and of its set are equal exactly if the list has no repetition.
  pub IsUnique-of_length : (xs : List A) → length xs ≡ length (to_set xs) → IsUnique xs
  unfolding to_set
  IsUnique-of_length [] h = tt
  IsUnique-of_length (x ∷ xs) h = elim (Bool-cases (contains x xs)) [
    | inl twice ↦ absurd (
        omega
          (arith, to_set-le xs, let k : suc (length xs) ≡ length (to_set xs) = rw twice at h in k))
    | inr once ↦
        let k : suc (length xs) ≡ suc (length (to_set xs)) = rw once at h in
        (not-In_of_contains x xs once, IsUnique-of_length xs (omega arith))
  ]

  pub length_of_IsUnique : (xs : List A) → IsUnique xs → length xs ≡ length (to_set xs)
  unfolding to_set
  length_of_IsUnique [] h = refl
  length_of_IsUnique (x ∷ xs) h = elim (Bool-cases (contains x xs)) [
    | inl twice ↦ absurd (h.0 ((contains_iff x xs).0 twice))
    | inr once ↦ rw once (ap suc (length_of_IsUnique xs h.1))
  ]
