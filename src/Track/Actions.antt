-- ===== src/Track/Actions.antt =====
-- Finding an action by its alias, and the actions that are forbidden or not.
use levelup_bench.Prelude.{
  ◌≡◌, refl, sym, ap, ◌∙◌, String, true, false, not, List, [], ◌∷◌, some, map, string_eq, ◌==◌,
  ==→≡, ==_ne, arith, In, inl, inr, IsUnique, Bool-cases, In-select,
}
use levelup_bench.Track.{OpaqueAction, find_action, forbidden_actions, valid_actions}

abbrev pub aliases_of : List OpaqueAction → List String
aliases_of = map (λ a. a.alias)

pub In-aliases_of :
    (xs : List OpaqueAction) (a : OpaqueAction) → In a xs → In a.alias (aliases_of xs)
In-aliases_of [] a m = absurd m
In-aliases_of (x ∷ xs) a (inl same) = inl (ap (λ (b : OpaqueAction). b.alias) same)
In-aliases_of (x ∷ xs) a (inr m) = inr (In-aliases_of xs a m)

pub aliases_of-In :
    (xs : List OpaqueAction) (name : String)
    → In name (aliases_of xs)
    → (a : OpaqueAction) × In a xs × (a.alias ≡ name)
aliases_of-In [] name m = absurd m
aliases_of-In (x ∷ xs) name (inl same) = (x, inl refl, sym same)
aliases_of-In (x ∷ xs) name (inr m) = let (a, n, p) = aliases_of-In xs name m in (a, inr n, p)

-- What is found stands in the list and has the alias.
pub find_action-In :
    (name : String) (xs : List OpaqueAction) (a : OpaqueAction)
    → find_action name xs ≡ some a
    → In a xs × (a.alias ≡ name)
unfolding find_action
find_action-In name [] a h = cc
find_action-In name (x ∷ xs) a h = elim (Bool-cases (x.alias == name)) [
  | inl same ↦
      let k : some x ≡ some a = rw same at h in
      let p : x ≡ a = cc k in (inl (sym p), ap (λ (b : OpaqueAction). b.alias) (sym p) ∙ ==→≡ same)
  | inr other ↦
      let k : find_action name xs ≡ some a = rw other at h in
      let (m, p) = find_action-In name xs a k in (inr m, p)
]

-- Where the aliases differ, each action is found by its own.
pub find_action_self :
    (xs : List OpaqueAction) (a : OpaqueAction)
    → IsUnique (aliases_of xs)
    → In a xs
    → find_action a.alias xs ≡ some a
unfolding find_action
find_action_self [] a u m = absurd m
find_action_self (x ∷ xs) a u (inl same) =
    let hit : (x.alias == a.alias) ≡ true =
      (string_eq.beq_iff x.alias a.alias).1 (ap (λ (b : OpaqueAction). b.alias) (sym same)) in
    rw hit (ap some (sym same))
find_action_self (x ∷ xs) a u (inr m) =
    let differ : (x.alias == a.alias) ≡ false =
      ==_ne x.alias a.alias (λ p. u.0 (rw p (In-aliases_of xs a m))) in
    rw differ (find_action_self xs a u.1 m)

pub In-forbidden_actions :
    (xs : List OpaqueAction) (a : OpaqueAction)
    → In a (forbidden_actions xs)
    → In a xs × (a.forbidden ≡ true)
unfolding forbidden_actions
In-forbidden_actions xs a m = In-select (λ b. b.forbidden) xs a m

pub forbidden_actions-In :
    (xs : List OpaqueAction) (a : OpaqueAction)
    → In a xs
    → a.forbidden ≡ true
    → In a (forbidden_actions xs)
unfolding forbidden_actions
forbidden_actions-In [] a m f = absurd m
forbidden_actions-In (x ∷ xs) a (inl same) f = rw (← same) (rw f (inl refl))
forbidden_actions-In (x ∷ xs) a (inr m) f = elim (Bool-cases x.forbidden) [
  | inl h ↦ rw h (inr (forbidden_actions-In xs a m f))
  | inr h ↦ rw h (forbidden_actions-In xs a m f)
]

pub In-valid_actions :
    (xs : List OpaqueAction) (a : OpaqueAction)
    → In a (valid_actions xs)
    → In a xs × (a.forbidden ≡ false)
unfolding valid_actions
In-valid_actions xs a m = let (n, h) = In-select (λ b. not b.forbidden) xs a m in (n, ground arith)

pub valid_actions-In :
    (xs : List OpaqueAction) (a : OpaqueAction)
    → In a xs
    → a.forbidden ≡ false
    → In a (valid_actions xs)
unfolding valid_actions
valid_actions-In [] a m f = absurd m
valid_actions-In (x ∷ xs) a (inl same) f = rw (← same) (rw f (inl refl))
valid_actions-In (x ∷ xs) a (inr m) f = elim (Bool-cases x.forbidden) [
  | inl h ↦ rw h (valid_actions-In xs a m f)
  | inr h ↦ rw h (inr (valid_actions-In xs a m f))
]
