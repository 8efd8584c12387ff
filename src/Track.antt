-- ===== src/Track.antt =====
-- What the three tracks share: `OpaqueAction`, the states, the verifier and the reset seed.
pub mod Actions
use levelup_bench.Prelude.{
  ℕ, zero, suc, ◌+◌, ◌≤◌, ◌≡◌, ◌↔◌, String, Bool, true, false, not, ◌&&◌, ◌||◌, List, [], ◌∷◌,
  Option, none, some, map, length, select, contains, to_set, string_eq, Eq, ◌==◌, eqb, ltb, leb,
  nonzero, arith, Result, ok, raise, raise_if, ◌>>=◌, ◌>>◌, if◌then◌else◌,
}
use levelup_bench.Prelude.Texts.{join}
use levelup_bench.Core.Faults.{
  Fault, value_error, unsupported_seed, unsupported_verifier, action_text_required,
}
use levelup_bench.Core.Json.{JsonValue, Fields, field, no_fields, text, get, as_text}
use levelup_bench.Core.Outcome.{ConstraintOutcome}
use levelup_bench.Core.Task.{ConstraintSpec}
use levelup_bench.Runtime.{Runtime}

-- `OpaqueAction`. The fields of every action that the program makes are naturals.
pub record OpaqueAction : Type 0 where
  pub alias : String
  pub progress : ℕ
  pub tick_cost : ℕ
  pub resource_use : ℕ
  pub resource_gain : ℕ
  pub pressure_gain : ℕ
  pub pressure_clear : ℕ
  pub forbidden : Bool

-- `State`, the tuple (progress, resource, pressure).
pub record State : Type 0 where
  pub progress : ℕ
  pub resource : ℕ
  pub pressure : ℕ

abbrev pub same_state : State → State → Bool
same_state s t =
    eqb s.progress t.progress && (eqb s.resource t.resource && eqb s.pressure t.pressure)

pub same_state_iff : (s t : State) → (same_state s t ≡ true) ↔ (s ≡ t)
same_state_iff s t = ground arith

instance abbrev pub state_eq : Eq State
state_eq = record { beq = same_state; beq_iff = same_state_iff }

-- `next_progress`, which stays where it is when it would pass the target.
abbrev pub advance : ℕ → ℕ → ℕ → ℕ
advance target progress gain = if ltb target (progress + gain) then progress else progress + gain

-- `{action.alias: action for action in actions}.get(name)`, for actions whose aliases differ.
unfoldable pub find_action : String → List OpaqueAction → Option OpaqueAction
find_action name [] = none
find_action name (a ∷ rest) = if a.alias == name then some a else find_action name rest

unfoldable pub forbidden_actions : List OpaqueAction → List OpaqueAction
forbidden_actions = select (λ a. a.forbidden)

unfoldable pub valid_actions : List OpaqueAction → List OpaqueAction
valid_actions = select (λ a. not a.forbidden)

-- `seed not in (None, 0)`
abbrev pub bad_seed : Option ℕ → Bool
bad_seed none = false
bad_seed (some seed) = nonzero seed

abbrev pub has_arguments : Fields → Bool
has_arguments no_fields = false
has_arguments (field k v rest) = true

-- `verify_constraint` of every track, given the names of the actions taken.
unfoldable pub verify_never_used :
    Runtime → List String → ConstraintSpec → Result Fault ConstraintOutcome
verify_never_used rt taken c =
    if not (c.verifier_id == "never_use_action")
    then raise (value_error unsupported_verifier)
    else elim (as_text (get "action" c.verifier_config)) [
      | none ↦ raise (value_error action_text_required)
      | some name ↦
          let passed = not (contains name taken) in
          ok (record {
            constraint_id = c.constraint_id;
            passed = passed;
            evidence = some (
                join (
                  "action "
                  ∷ rt.repr name
                  ∷ (if passed then " was never used" else " was used")
                  ∷ []));
          })
    ]

-- The constraint that every track declares.
abbrev pub never_use_override : String → ConstraintSpec
never_use_override alias = record {
  constraint_id = "never_use_override";
  description = join ("Do not use action " ∷ alias ∷ "." ∷ []);
  verifier_id = "never_use_action";
  verifier_config = field "action" (text alias) no_fields;
}

-- The factor on the perceived cost of an action, in hundredths, in
-- mechanictrack.py and adaptive_track.py.
abbrev pub multiplier : OpaqueAction → ℕ
multiplier a =
    100
    + (if nonzero a.resource_use
          || (nonzero a.resource_gain || (nonzero a.pressure_gain || nonzero a.pressure_clear))
        then 45
        else 0)
    + (if leb 3 a.progress then 25 else 0)
