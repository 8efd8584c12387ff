-- ===== src/Course/Valid.antt =====
-- What the checks in the tracks' constructors guarantee.
use levelup_bench.Prelude.{
  ◌≡◌, refl, sym, subst, String, true, List, [], ◌∷◌, arith, In, inl, inr, IsUnique,
  IsUnique-of_length, Result, ok, raise, string_eq,
}
use levelup_bench.Core.Faults.{Fault, value_error, forbidden_count}
use levelup_bench.Core.Task.{all_unique}
use levelup_bench.Track.{OpaqueAction, forbidden_actions}
use levelup_bench.Track.Actions.{aliases_of, In-forbidden_actions, forbidden_actions-In}

-- The aliases differ, and the forbidden alias is that of the one forbidden action.
pub record IsFair (actions : List OpaqueAction) (forbidden_alias : String) : Type 0 where
  pub unique : IsUnique (aliases_of actions)
  pub override : OpaqueAction
  pub is_action : In override actions
  pub is_forbidden : override.forbidden ≡ true
  pub named : override.alias ≡ forbidden_alias
  pub only : (a : OpaqueAction) → In a actions → a.forbidden ≡ true → a ≡ override

-- `if len(forbidden) != 1: raise`, and `forbidden[0]` after it.
abbrev pub the_only : List OpaqueAction → Result Fault OpaqueAction
the_only [] = raise (value_error forbidden_count)
the_only (a ∷ []) = ok a
the_only (a ∷ b ∷ rest) = raise (value_error forbidden_count)

all_unique-IsUnique : (ids : List String) → all_unique ids ≡ true → IsUnique ids
unfolding all_unique
all_unique-IsUnique ids h = IsUnique-of_length ids (ground arith)

the_only-eq-ok : (xs : List OpaqueAction) (a : OpaqueAction) → the_only xs ≡ ok a → xs ≡ a ∷ []
the_only-eq-ok [] a h = cc
the_only-eq-ok (x ∷ []) a h = cc
the_only-eq-ok (x ∷ y ∷ rest) a h = cc

-- Both checks passed.
pub IsFair-of_checks :
    (actions : List OpaqueAction) (o : OpaqueAction)
    → all_unique (aliases_of actions) ≡ true
    → the_only (forbidden_actions actions) ≡ ok o
    → IsFair actions o.alias
IsFair-of_checks actions o differ found =
    let single : forbidden_actions actions ≡ o ∷ [] =
      the_only-eq-ok (forbidden_actions actions) o found in
    let (m, is_forbidden) = In-forbidden_actions actions o (subst (In o) (sym single) (inl refl)) in
    record {
      unique = all_unique-IsUnique (aliases_of actions) differ;
      override = o;
      is_action = m;
      is_forbidden = is_forbidden;
      named = refl;
      only = λ a n f. elim (subst (In a) single (forbidden_actions-In actions a n f)) [
        | inl same ↦ same
        | inr none_left ↦ absurd none_left
      ];
    }
